-- ===== src/Common/Bits.antt =====
-- The bits of a number, read one at a time, and how `&`, `|` and shifted ones act on them.
use Prim.Native.Nat.{
  ℕ, zero, suc, ◌+◌, ◌-◌, ◌*◌, ◌/◌, ◌%◌, ◌^◌, ◌≤◌, ◌<◌, min, max, bit_and, bit_or, digits,
  bit_and-bitwise, bit_or-bitwise,
}
use mathlib.Core.Path.{◌≡◌, refl, ap}
use mathlib.Core.Logic.{◌≢◌, inl, inr}
use mathlib.Core.Bool.{Bool, true, false, ◌&&◌, ◌||◌, not}
use native.Mathlib.Omega.{arith}
use native.Mathlib.Nat.{pow-suc, one-le-pow}
use watos.Common.Tests.{◌==◌, ==_iff, ltb, if◌then◌else◌, Bool-cases}

-- bit `i` of `w`, counted from the lowest
abbrev pub get_bit : ℕ → ℕ → Bool
get_bit w zero = w % 2 == 1
get_bit w (suc i) = get_bit (w / 2) i

-- The fuel of the library's digit recursion does not matter once it reaches the number.
fuel_free :
    (z : ℕ → ℕ) (f : ℕ → ℕ → ℕ) (n m a b : ℕ) → a ≤ n → a ≤ m → digits z f n a b ≡ digits z f m a b
fuel_free z f zero zero a b p q = refl
fuel_free z f zero (suc m) zero b p q = refl
fuel_free z f zero (suc m) (suc a) b p q = absurd (omega arith)
fuel_free z f (suc n) zero zero b p q = refl
fuel_free z f (suc n) zero (suc a) b p q = absurd (omega arith)
fuel_free z f (suc n) (suc m) zero b p q = refl
fuel_free z f (suc n) (suc m) (suc a) b p q =
    ap (λ t. t * 2 + f (suc a % 2) (b % 2))
      (fuel_free z f n m (suc a / 2) (b / 2) (omega arith) (omega arith))

pub or_lowest : (a b : ℕ) → bit_or a b ≡ bit_or (a / 2) (b / 2) * 2 + max (a % 2) (b % 2)
or_lowest zero b = omega (arith, bit_or-bitwise zero b, bit_or-bitwise (zero / 2) (b / 2))
or_lowest (suc a) b = omega (
  arith,
  bit_or-bitwise (suc a) b,
  bit_or-bitwise (suc a / 2) (b / 2),
  fuel_free (λ y. y) max a (suc a / 2) (suc a / 2) (b / 2) (omega arith) (omega arith),
)

pub and_lowest : (a b : ℕ) → bit_and a b ≡ bit_and (a / 2) (b / 2) * 2 + min (a % 2) (b % 2)
and_lowest zero b = omega (arith, bit_and-bitwise zero b, bit_and-bitwise (zero / 2) (b / 2))
and_lowest (suc a) b = omega (
  arith,
  bit_and-bitwise (suc a) b,
  bit_and-bitwise (suc a / 2) (b / 2),
  fuel_free (λ y. 0) min a (suc a / 2) (suc a / 2) (b / 2) (omega arith) (omega arith),
)

half-bit_or : (a b : ℕ) → bit_or a b / 2 ≡ bit_or (a / 2) (b / 2)
half-bit_or a b = omega (arith, or_lowest a b)

half-bit_and : (a b : ℕ) → bit_and a b / 2 ≡ bit_and (a / 2) (b / 2)
half-bit_and a b = omega (arith, and_lowest a b)

pub get_bit-bit_or : (i a b : ℕ) → get_bit (bit_or a b) i ≡ (get_bit a i || get_bit b i)
get_bit-bit_or zero a b = ground (arith, or_lowest a b)
get_bit-bit_or (suc i) a b = rw half-bit_or (get_bit-bit_or i (a / 2) (b / 2))

pub get_bit-bit_and : (i a b : ℕ) → get_bit (bit_and a b) i ≡ (get_bit a i && get_bit b i)
get_bit-bit_and zero a b = ground (arith, and_lowest a b)
get_bit-bit_and (suc i) a b = rw half-bit_and (get_bit-bit_and i (a / 2) (b / 2))

pub zero-get_bit : (i : ℕ) → get_bit 0 i ≡ false
zero-get_bit zero = refl
zero-get_bit (suc i) = zero-get_bit i

-- `1 << k`
pub get_bit-pow : (k i : ℕ) → get_bit (2 ^ k) i ≡ (k == i)
get_bit-pow zero zero = refl
get_bit-pow zero (suc i) = ground (arith, zero-get_bit i)
get_bit-pow (suc k) zero = ground (arith, pow-suc 2 k)
get_bit-pow (suc k) (suc i) =
    let half : 2 ^ suc k / 2 ≡ 2 ^ k = omega (arith, pow-suc 2 k) in
    rw half (ground (arith, get_bit-pow k i))

-- `!m` in a word of `n` bits
abbrev pub complement : ℕ → ℕ → ℕ
complement n m = 2 ^ n - 1 - m

pub get_bit-complement :
    (n m i : ℕ) → m < 2 ^ n → get_bit (complement n m) i ≡ (ltb i n && not (get_bit m i))
get_bit-complement zero m i h = ground (arith, zero-get_bit i)
get_bit-complement (suc n) m zero h = ground (arith, pow-suc 2 n)
get_bit-complement (suc n) m (suc i) h =
    let half : complement (suc n) m / 2 ≡ complement n (m / 2) = omega (arith, pow-suc 2 n) in
    let below : m / 2 < 2 ^ n = omega (arith, pow-suc 2 n) in
    rw half (ground (arith, get_bit-complement n (m / 2) i below))

-- A word of `n` bits has no bit from `n` on.
pub get_bit-high : (n w i : ℕ) → w < 2 ^ n → n ≤ i → get_bit w i ≡ false
get_bit-high zero w i h k = let e : w ≡ 0 = omega arith in rw e (zero-get_bit i)
get_bit-high (suc n) w zero h k = absurd (omega arith)
get_bit-high (suc n) w (suc i) h k =
    get_bit-high n (w / 2) i (omega (arith, pow-suc 2 n)) (omega arith)

zero_of_bits : (n w : ℕ) → w ≤ n → ((i : ℕ) → get_bit w i ≡ false) → w ≡ 0
zero_of_bits zero w h off = omega arith
zero_of_bits (suc n) zero h off = refl
zero_of_bits (suc n) (suc w) h off =
    let half : suc w / 2 ≡ 0 = zero_of_bits n (suc w / 2) (omega arith) (λ i. off (suc i)) in
    ground (arith, off 0)

-- A word without set bits is zero.
pub eq-zero_of_bits : (w : ℕ) → ((i : ℕ) → get_bit w i ≡ false) → w ≡ 0
eq-zero_of_bits w off = zero_of_bits w w (omega arith) off

pub eq-zero→get_bit : (w i : ℕ) → w ≡ 0 → get_bit w i ≡ false
eq-zero→get_bit w i e = rw e (zero-get_bit i)

-- The test `w & (1 << b) == 0` reads bit `b`.
pub and-pow-zero : (b w : ℕ) → (bit_and w (2 ^ b) == 0) ≡ not (get_bit w b)
and-pow-zero b w = elim (Bool-cases (get_bit w b)) [
  | inl on ↦ ground (
    arith,
    on,
    get_bit-bit_and b w (2 ^ b),
    get_bit-pow b b,
    eq-zero→get_bit (bit_and w (2 ^ b)) b,
  )
  | inr off ↦ rw off (rw (eq-zero_of_bits (bit_and w (2 ^ b)) (clear off)) refl)
]
  where
    clear : get_bit w b ≡ false → (i : ℕ) → get_bit (bit_and w (2 ^ b)) i ≡ false
    clear off i =
        rw (get_bit-bit_and i w (2 ^ b), get_bit-pow b i)
          (elim (Bool-cases (b == i)) [
            | inl same ↦ rw (← (==_iff b i).0 same, off) refl
            | inr other ↦ rw other (ground arith)
          ])

-- Some bit of a word that is not zero is set.
pub some_bit : (n w : ℕ) → w < 2 ^ n → w ≢ 0 → (i : ℕ) × (i < n) × (get_bit w i ≡ true)
some_bit zero w h p = absurd (p (omega arith))
some_bit (suc n) w h p = elim (Bool-cases (w % 2 == 1)) [
  | inl odd ↦ (0, omega arith, odd)
  | inr even ↦
      let (i, below, on) =
        some_bit n (w / 2) (omega (arith, pow-suc 2 n)) (λ e. p (ground arith)) in
      (suc i, omega arith, on)
]

-- `w.trailing_zeros()` of a word of `n` bits; `n` for the word zero
unfoldable pub trailing_zeros : ℕ → ℕ → ℕ
trailing_zeros zero w = 0
trailing_zeros (suc n) w = if w % 2 == 1 then 0 else suc (trailing_zeros n (w / 2))

-- It is the place of a set bit.
pub get_bit-trailing_zeros :
    (n w : ℕ)
    → w < 2 ^ n
    → w ≢ 0
    → (trailing_zeros n w < n) × (get_bit w (trailing_zeros n w) ≡ true)
unfolding trailing_zeros
get_bit-trailing_zeros zero w h p = absurd (p (omega arith))
get_bit-trailing_zeros (suc n) w h p = elim (Bool-cases (w % 2 == 1)) [
  | inl odd ↦ rw odd (omega arith, odd)
  | inr even ↦
      let (below, on) =
        get_bit-trailing_zeros n (w / 2) (omega (arith, pow-suc 2 n)) (λ e. p (ground arith)) in
      rw even (omega arith, on)
]

pub bit_or-lt : (n a b : ℕ) → a < 2 ^ n → b < 2 ^ n → bit_or a b < 2 ^ n
bit_or-lt zero a b h k =
    let e : a ≡ 0 = omega arith in let f : b ≡ 0 = omega arith in rw (e, f) (omega arith)
bit_or-lt (suc n) a b h k = omega (
  arith,
  or_lowest a b,
  pow-suc 2 n,
  bit_or-lt n (a / 2) (b / 2) (omega (arith, pow-suc 2 n)) (omega (arith, pow-suc 2 n)),
)

pub bit_and-lt : (n a b : ℕ) → a < 2 ^ n → bit_and a b < 2 ^ n
bit_and-lt zero a b h = let e : a ≡ 0 = omega arith in rw e (omega (arith, bit_and-bitwise 0 b))
bit_and-lt (suc n) a b h =
    omega (
      arith,
      and_lowest a b,
      pow-suc 2 n,
      bit_and-lt n (a / 2) (b / 2) (omega (arith, pow-suc 2 n)),
    )

pub pow-lt : (k n : ℕ) → k < n → 2 ^ k < 2 ^ n
pow-lt k zero h = absurd (omega arith)
pow-lt zero (suc n) h = omega (arith, pow-suc 2 n, one-le-pow n 2)
pow-lt (suc k) (suc n) h = omega (arith, pow-suc 2 n, pow-suc 2 k, pow-lt k n (omega arith))

pub and-zero : (a : ℕ) → bit_and a 0 ≡ 0
and-zero a =
    eq-zero_of_bits (bit_and a 0) (λ i. rw (get_bit-bit_and i a 0, zero-get_bit i) (ground arith))

-- Two words with the same bits are equal.
same_bits : (n a b : ℕ) → a ≤ n → b ≤ n → ((i : ℕ) → get_bit a i ≡ get_bit b i) → a ≡ b
same_bits zero a b h k same = omega arith
same_bits (suc n) a b h k same =
    let half : a / 2 ≡ b / 2 =
      same_bits n (a / 2) (b / 2) (omega arith) (omega arith) (λ i. same (suc i)) in
    ground (arith, same 0)

pub eq_of_bits : (a b : ℕ) → ((i : ℕ) → get_bit a i ≡ get_bit b i) → a ≡ b
eq_of_bits a b same = same_bits (a + b) a b (omega arith) (omega arith) same
