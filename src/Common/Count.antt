-- ===== src/Common/Count.antt =====
-- How many of the numbers below a bound pass a test.
use Prim.Native.Nat.{ℕ, zero, suc, ◌+◌, ◌≤◌, ◌<◌}
use mathlib.Core.Path.{◌≡◌, refl}
use mathlib.Core.Logic.{◌≢◌, inl, inr}
use mathlib.Core.Bool.{Bool, true, false}
use native.Mathlib.Omega.{arith}
use native.Mathlib.Decide.{ℕ_discrete}
use watos.Common.Tests.{if◌then◌else◌, Bool-cases}

unfoldable pub count_below : ℕ → (ℕ → Bool) → ℕ
count_below zero f = 0
count_below (suc n) f = count_below n f + (if f n then 1 else 0)

pub count_congr :
    (n : ℕ) (f g : ℕ → Bool) → ((i : ℕ) → i < n → f i ≡ g i) → count_below n f ≡ count_below n g
unfolding count_below
count_congr zero f g h = refl
count_congr (suc n) f g h =
    ground (arith, count_congr n f g (λ i k. h i (omega arith)), h n (omega arith))

-- One more number passes.
pub count_flip :
    (n p : ℕ) (f g : ℕ → Bool)
    → p < n
    → f p ≡ false
    → g p ≡ true
    → ((i : ℕ) → i ≢ p → f i ≡ g i)
    → count_below n g ≡ count_below n f + 1
unfolding count_below
count_flip zero p f g h off on same = absurd (omega arith)
count_flip (suc n) p f g h off on same = elim (ℕ_discrete p n) [
  | yes e ↦
      let off' : f n ≡ false = rw (← e) off in
      let on' : g n ≡ true = rw (← e) on in
      ground (arith, count_congr n f g (λ i k. same i (omega arith)))
  | no ne ↦ ground (arith, count_flip n p f g (omega arith) off on same, same n (omega arith))
]

pub count-le : (n : ℕ) (f : ℕ → Bool) → count_below n f ≤ n
unfolding count_below
count-le zero f = omega arith
count-le (suc n) f = ground (arith, count-le n f)

pub count_none : (n : ℕ) (f : ℕ → Bool) → ((i : ℕ) → i < n → f i ≡ false) → count_below n f ≡ 0
unfolding count_below
count_none zero f h = refl
count_none (suc n) f h =
    ground (arith, count_none n f (λ i k. h i (omega arith)), h n (omega arith))

pub count_pos : (n p : ℕ) (f : ℕ → Bool) → p < n → f p ≡ true → 0 < count_below n f
unfolding count_below
count_pos zero p f h on = absurd (omega arith)
count_pos (suc n) p f h on = elim (ℕ_discrete p n) [
  | yes e ↦ let on' : f n ≡ true = rw (← e) on in ground arith
  | no ne ↦ omega (arith, count_pos n p f (omega arith) on)
]

pub count_some : (n : ℕ) (f : ℕ → Bool) → 0 < count_below n f → (i : ℕ) × (i < n) × (f i ≡ true)
unfolding count_below
count_some zero f h = absurd (omega arith)
count_some (suc n) f h = elim (Bool-cases (f n)) [
  | inl on ↦ (n, omega arith, on)
  | inr off ↦ let (i, below, on) = count_some n f (ground arith) in (i, omega arith, on)
]
