-- ===== src/Readline/Buffer/Bounds.antt =====
-- Vectors within bounds: no panic, and what the parts are.
use watos.Common.{
  ℕ, zero, suc, ◌+◌, ◌-◌, ◌≤◌, ◌<◌, ◌≡◌, refl, sym, ap, ◌∙◌, ◌⊎◌, inl, inr, Bool, none, some, List,
  [], ◌∷◌, ◌++◌, arith, ◌==◌, Bool-cases, length, set, take, drop, length-set, length-drop,
  take-append-drop,
}
use watos.Readline.Buffer.Text.{
  slice, drain, swap, skip_back, skip_forward, find_forward, find_back,
}
use watos.Common.Slices.{get_elem?-at, drop-split}

-- The text before `s`, from `s` to `e`, and from `e` on.
pub three_parts :
    (s e : ℕ) (xs : List ℕ) → s ≤ e → xs ≡ take s xs ++ (take (e - s) (drop s xs) ++ drop e xs)
three_parts s e xs h = sym (take-append-drop s xs) ∙ ap (λ r. take s xs ++ r) (drop-split s e xs h)

pub slice_lem :
    (xs : List ℕ) (s e : ℕ) → s ≤ e → e ≤ length xs → slice xs s e ≡ some (take (e - s) (drop s xs))
unfolding slice
slice_lem xs s e h k = ground arith

pub drain_lem :
    (xs : List ℕ) (s e : ℕ) → s ≤ e → e ≤ length xs → drain xs s e ≡ some (take s xs ++ drop e xs)
unfolding drain
drain_lem xs s e h k = ground arith

pub skip_back-le :
    (test : ℕ → Bool) (xs : List ℕ) (n : ℕ)
    → n ≤ length xs
    → (m : ℕ) × (skip_back test xs n ≡ some m) × (m ≤ n)
unfolding skip_back
skip_back-le test xs zero h = (0, refl, omega arith)
skip_back-le test xs (suc n) h =
    let (c, e, p) = get_elem?-at xs n (omega arith) in
    let (m, f, l) = skip_back-le test xs n (omega arith) in
    elim (Bool-cases (test c)) [
      | inl hit ↦ (m, rw (e, hit, f), omega arith)
      | inr other ↦ (suc n, rw (e, other), omega arith)
    ]

pub skip_forward-ge : (test : ℕ → Bool) (rest : List ℕ) (i : ℕ) → i ≤ skip_forward test rest i
unfolding skip_forward
skip_forward-ge test [] i = omega arith
skip_forward-ge test (c ∷ rest) i = ground (arith, skip_forward-ge test rest (suc i))

pub skip_forward-le :
    (test : ℕ → Bool) (rest : List ℕ) (i : ℕ) → skip_forward test rest i ≤ i + length rest
unfolding skip_forward
skip_forward-le test [] i = omega arith
skip_forward-le test (c ∷ rest) i = ground (arith, skip_forward-le test rest (suc i))

-- where a forward loop from `i` on stops
pub skip_forward-drop :
    (test : ℕ → Bool) (xs : List ℕ) (i : ℕ)
    → i ≤ length xs
    → skip_forward test (drop i xs) i ≤ length xs
skip_forward-drop test xs i h = omega (arith, skip_forward-le test (drop i xs) i, length-drop i xs)

pub find_forward-lt :
    (ch : ℕ) (rest : List ℕ) (i j : ℕ) → find_forward ch rest i ≡ some j → j < i + length rest
unfolding find_forward
find_forward-lt ch [] i j e = cc
find_forward-lt ch (c ∷ rest) i j e = ground (arith, find_forward-lt ch rest (suc i) j)

pub find_back-lt :
    (ch : ℕ) (xs : List ℕ) (n : ℕ)
    → n ≤ length xs
    → (find_back ch xs n ≡ some none) ⊎ ((j : ℕ) × (find_back ch xs n ≡ some (some j)) × (j < n))
unfolding find_back
find_back-lt ch xs zero h = inl refl
find_back-lt ch xs (suc n) h =
    let (c, e, p) = get_elem?-at xs n (omega arith) in
    elim (Bool-cases (c == ch)) [
      | inl hit ↦ inr (n, rw (e, hit), omega arith)
      | inr other ↦ elim (find_back-lt ch xs n (omega arith)) [
        | inl f ↦ inl (rw (e, other, f))
        | inr (j, f, l) ↦ inr (j, rw (e, other, f), omega arith)
      ]
    ]

pub swap_lem :
    (xs : List ℕ) (i j : ℕ)
    → i < length xs
    → j < length xs
    → (ys : List ℕ) × (swap xs i j ≡ some ys) × (length ys ≡ length xs)
unfolding swap
swap_lem xs i j h k =
    let (a, e, p) = get_elem?-at xs i h in
    let (b, f, q) = get_elem?-at xs j k in
    (set (set xs i b) j a, rw (e, f), length-set (set xs i b) j a ∙ length-set xs i b)
