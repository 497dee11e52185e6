-- ===== src/FilePath/Parts.antt =====
-- Splitting a text at separators and joining the parts, and equality of texts.
use watos.Common.{
  ℕ, ◌≡◌, refl, ap, ◌∙◌, inl, inr, Bool, true, false, ◌&&◌, not, List, [], ◌∷◌, ◌++◌, arith, ◌==◌,
  Bool-cases,
}
use watos.FilePath.Text.{text_eq, contains, split_on, join_with, to_head}

pub text_eq_refl : (a : List ℕ) → text_eq a a ≡ true
unfolding text_eq
text_eq_refl [] = refl
text_eq_refl (x ∷ xs) = ground (arith, text_eq_refl xs)

pub eq_of_text_eq : (a b : List ℕ) → text_eq a b ≡ true → a ≡ b
unfolding text_eq
eq_of_text_eq [] [] h = refl
eq_of_text_eq [] (y ∷ ys) h = cc
eq_of_text_eq (x ∷ xs) [] h = cc
eq_of_text_eq (x ∷ xs) (y ∷ ys) h = ground (arith, eq_of_text_eq xs ys)

-- No part holds the separator.
abbrev pub clean : ℕ → List (List ℕ) → Bool
clean c [] = true
clean c (p ∷ ps) = not (contains c p) && clean c ps

clean-to_head :
    (c x : ℕ) (ps : List (List ℕ))
    → (x == c) ≡ false
    → clean c ps ≡ true
    → clean c (to_head x ps) ≡ true
unfolding contains
clean-to_head c x [] e h = h
clean-to_head c x (p ∷ ps) e h = ground arith

pub clean-split_on : (c : ℕ) (xs : List ℕ) → clean c (split_on c xs) ≡ true
unfolding split_on contains
clean-split_on c [] = refl
clean-split_on c (x ∷ xs) = elim (Bool-cases (x == c)) [
  | inl sep ↦ rw sep (clean-split_on c xs)
  | inr other ↦ rw other (clean-to_head c x (split_on c xs) other (clean-split_on c xs))
]

split_on-part : (c : ℕ) (p : List ℕ) → contains c p ≡ false → split_on c p ≡ p ∷ []
unfolding split_on contains
split_on-part c [] h = refl
split_on-part c (x ∷ xs) h = ground (arith, split_on-part c xs)

split_on-append :
    (c : ℕ) (p rest : List ℕ)
    → contains c p ≡ false
    → split_on c (p ++ c ∷ rest) ≡ p ∷ split_on c rest
unfolding split_on contains
split_on-append c [] rest h = ground arith
split_on-append c (x ∷ xs) rest h = ground (arith, split_on-append c xs rest)

-- Splitting what was joined from clean parts gives the parts.
pub split_on-join_with :
    (c : ℕ) (p : List ℕ) (ps : List (List ℕ))
    → clean c (p ∷ ps) ≡ true
    → split_on c (join_with c (p ∷ ps)) ≡ p ∷ ps
unfolding join_with
split_on-join_with c p [] h = split_on-part c p (ground arith)
split_on-join_with c p (q ∷ qs) h =
    split_on-append c p (join_with c (q ∷ qs)) (ground arith)
    ∙ ap (λ r. p ∷ r) (split_on-join_with c q qs (ground arith))
