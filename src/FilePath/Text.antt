-- ===== src/FilePath/Text.antt =====
-- The operations on texts that the path functions take from the language's library.
use watos.Common.{
  ℕ, suc, Bool, true, false, ◌&&◌, ◌||◌, Option, none, some, List, [], ◌∷◌, ◌++◌, ◌==◌,
  if◌then◌else◌,
}

-- `==` on texts
unfoldable pub text_eq : List ℕ → List ℕ → Bool
text_eq [] [] = true
text_eq (x ∷ xs) (y ∷ ys) = x == y && text_eq xs ys
text_eq _ _ = false

unfoldable pub starts_with : ℕ → List ℕ → Bool
starts_with c [] = false
starts_with c (x ∷ xs) = x == c

unfoldable pub ends_with : ℕ → List ℕ → Bool
ends_with c [] = false
ends_with c (x ∷ []) = x == c
ends_with c (x ∷ y ∷ ys) = ends_with c (y ∷ ys)

unfoldable pub contains : ℕ → List ℕ → Bool
contains c [] = false
contains c (x ∷ xs) = x == c || contains c xs

abbrev pub to_head : ℕ → List (List ℕ) → List (List ℕ)
to_head c [] = []
to_head c (p ∷ ps) = (c ∷ p) ∷ ps

-- `text.split(c)`: the parts between the separators, at least one
unfoldable pub split_on : ℕ → List ℕ → List (List ℕ)
split_on c [] = [] ∷ []
split_on c (x ∷ xs) = let rest = split_on c xs in if x == c then [] ∷ rest else to_head x rest

-- `parts.join(c)`
unfoldable pub join_with : ℕ → List (List ℕ) → List ℕ
join_with c [] = []
join_with c (p ∷ []) = p
join_with c (p ∷ q ∷ qs) = p ++ c ∷ join_with c (q ∷ qs)

abbrev pub later : Option ℕ → ℕ → ℕ → Option ℕ
later (some i) x c = some (suc i)
later none x c = if x == c then some 0 else none

-- the place of the last `c`
unfoldable pub rfind : ℕ → List ℕ → Option ℕ
rfind c [] = none
rfind c (x ∷ xs) = later (rfind c xs) x c

abbrev pub drop_last_if : Bool → ℕ → List ℕ → List ℕ
drop_last_if true x [] = []
drop_last_if false x [] = x ∷ []
drop_last_if b x (y ∷ ys) = x ∷ y ∷ ys

-- `trim_end_matches(c)`
unfoldable pub trim_end : ℕ → List ℕ → List ℕ
trim_end c [] = []
trim_end c (x ∷ xs) = drop_last_if (x == c) x (trim_end c xs)
