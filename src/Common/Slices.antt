-- ===== src/Common/Slices.antt =====
-- Parts of lists: what stands where after a part was taken, dropped, put in or overwritten.
use Prim.Native.Nat.{ℕ, zero, suc, ◌+◌, ◌-◌, ◌≤◌, ◌<◌}
use mathlib.Core.Path.{◌≡◌, refl, sym, ap, ◌∙◌}
use mathlib.Core.List.{List, [], ◌∷◌, ◌++◌, append-nil}
use mathlib.Core.Option.{some}
use native.Mathlib.Omega.{arith}
use watos.Common.Lists.{
  length, get_elem?, take, drop, length-append, length-take, length-drop, take-append-drop,
}

module _ {ℓ} {A : Type ℓ} where
  pub get_elem?-at :
      (xs : List A) (i : ℕ)
      → i < length xs
      → (x : A) × (get_elem? xs i ≡ some x) × (xs ≡ take i xs ++ x ∷ drop (suc i) xs)
  get_elem?-at [] i h = absurd (omega arith)
  get_elem?-at (x ∷ xs) zero h = (x, refl, refl)
  get_elem?-at (x ∷ xs) (suc i) h =
      let (y, e, p) = get_elem?-at xs i (omega arith) in (y, e, ap (λ r. x ∷ r) p)

  pub take-take_append :
      (n : ℕ) (xs ys : List A) → n ≤ length xs → take n (take n xs ++ ys) ≡ take n xs
  take-take_append zero xs ys h = refl
  take-take_append (suc n) [] ys h = absurd (omega arith)
  take-take_append (suc n) (x ∷ xs) ys h = ap (λ r. x ∷ r) (take-take_append n xs ys (omega arith))

  pub drop-take_append : (n : ℕ) (xs ys : List A) → n ≤ length xs → drop n (take n xs ++ ys) ≡ ys
  drop-take_append zero xs ys h = refl
  drop-take_append (suc n) [] ys h = absurd (omega arith)
  drop-take_append (suc n) (x ∷ xs) ys h = drop-take_append n xs ys (omega arith)

  pub take-insert :
      (n : ℕ) (xs ys : List A) (x : A)
      → n ≤ length xs
      → take (suc n) (take n xs ++ x ∷ ys) ≡ take n xs ++ x ∷ []
  take-insert zero xs ys x h = refl
  take-insert (suc n) [] ys x h = absurd (omega arith)
  take-insert (suc n) (y ∷ xs) ys x h = ap (λ r. y ∷ r) (take-insert n xs ys x (omega arith))

  pub drop-insert :
      (n : ℕ) (xs ys : List A) (x : A) → n ≤ length xs → drop (suc n) (take n xs ++ x ∷ ys) ≡ ys
  drop-insert zero xs ys x h = refl
  drop-insert (suc n) [] ys x h = absurd (omega arith)
  drop-insert (suc n) (y ∷ xs) ys x h = drop-insert n xs ys x (omega arith)

  pub get_elem?-insert :
      (n : ℕ) (xs ys : List A) (x : A) → n ≤ length xs → get_elem? (take n xs ++ x ∷ ys) n ≡ some x
  get_elem?-insert zero xs ys x h = refl
  get_elem?-insert (suc n) [] ys x h = absurd (omega arith)
  get_elem?-insert (suc n) (y ∷ xs) ys x h = get_elem?-insert n xs ys x (omega arith)

  pub take-nil : (n : ℕ) → take {A = A} n [] ≡ []
  take-nil zero = refl
  take-nil (suc n) = refl

  pub drop-split :
      (s e : ℕ) (xs : List A) → s ≤ e → drop s xs ≡ take (e - s) (drop s xs) ++ drop e xs
  drop-split zero e xs h = let z : e - 0 ≡ e = omega arith in rw z (sym (take-append-drop e xs))
  drop-split (suc s) zero xs h = absurd (omega arith)
  drop-split (suc s) (suc e) [] h =
      sym (append-nil (take (suc e - suc s) []) ∙ take-nil (suc e - suc s))
  drop-split (suc s) (suc e) (x ∷ xs) h =
      let z : suc e - suc s ≡ e - s = omega arith in rw z (drop-split s e xs (omega arith))

module _ {ℓ} {A : Type ℓ} where
  pub take-all : (n : ℕ) (xs : List A) → length xs ≤ n → take n xs ≡ xs
  take-all n [] h = take-nil n
  take-all zero (x ∷ xs) h = absurd (omega arith)
  take-all (suc n) (x ∷ xs) h = ap (λ r. x ∷ r) (take-all n xs (omega arith))

  pub drop-all : (xs : List A) → drop (length xs) xs ≡ []
  drop-all [] = refl
  drop-all (x ∷ xs) = drop-all xs

-- `bs` over the part of `xs` from `off` on
module _ {ℓ} {A : Type ℓ} where
  abbrev pub overwrite : ℕ → List A → List A → List A
  overwrite off bs xs = take off xs ++ (bs ++ drop (off + length bs) xs)

  pub take-append_length : (xs ys : List A) → take (length xs) (xs ++ ys) ≡ xs
  take-append_length [] ys = refl
  take-append_length (x ∷ xs) ys = ap (λ r. x ∷ r) (take-append_length xs ys)

  pub drop-append_length : (xs ys : List A) → drop (length xs) (xs ++ ys) ≡ ys
  drop-append_length [] ys = refl
  drop-append_length (x ∷ xs) ys = drop-append_length xs ys

  pub drop-drop : (m n : ℕ) (xs : List A) → drop m (drop n xs) ≡ drop (n + m) xs
  drop-drop m zero xs = let z : 0 + m ≡ m = omega arith in rw z refl
  drop-drop zero (suc n) [] = let z : suc n + 0 ≡ suc n = omega arith in rw z refl
  drop-drop (suc m) (suc n) [] = let z : suc n + suc m ≡ suc (n + suc m) = omega arith in rw z refl
  drop-drop m (suc n) (x ∷ xs) =
      let z : suc n + m ≡ suc (n + m) = omega arith in rw z (drop-drop m n xs)

  pub drop-overwrite :
      (off : ℕ) (bs xs : List A)
      → off ≤ length xs
      → drop off (overwrite off bs xs) ≡ bs ++ drop (off + length bs) xs
  drop-overwrite off bs xs h = drop-take_append off xs (bs ++ drop (off + length bs) xs) h

  pub drop-overwrite_after :
      (off o : ℕ) (bs xs : List A)
      → off + length bs ≤ length xs
      → off + length bs ≤ o
      → drop o (overwrite off bs xs) ≡ drop o xs
  drop-overwrite_after off o bs xs h k =
      let n = length bs in
      let r = o - (off + n) in
      let e : off + (n + r) ≡ o = omega arith in
      let f : off + n + r ≡ o = omega arith in
      sym (ap (λ i. drop i (overwrite off bs xs)) e)
      ∙ sym (drop-drop (n + r) off (overwrite off bs xs))
      ∙ ap (drop (n + r)) (drop-overwrite off bs xs (omega arith))
      ∙ sym (drop-drop r n (bs ++ drop (off + n) xs))
      ∙ ap (drop r) (drop-append_length bs (drop (off + n) xs))
      ∙ drop-drop r (off + n) xs
      ∙ ap (λ i. drop i xs) f

  -- A prefix of `m` that ends before the part is the same.
  pub take-overwrite_before :
      (off o m : ℕ) (bs xs : List A)
      → off ≤ length xs
      → o + m ≤ off
      → take m (drop o (overwrite off bs xs)) ≡ take m (drop o xs)
  take-overwrite_before off o m bs xs h k = before off o m xs (bs ++ drop (off + length bs) xs) h k
    where
      before :
          (off o m : ℕ) (xs ys : List A)
          → off ≤ length xs
          → o + m ≤ off
          → take m (drop o (take off xs ++ ys)) ≡ take m (drop o xs)
      before off o zero xs ys h k = refl
      before zero o (suc m) xs ys h k = absurd (omega arith)
      before (suc off) o (suc m) [] ys h k = absurd (omega arith)
      before (suc off) zero (suc m) (x ∷ xs) ys h k =
          ap (λ r. x ∷ r) (before off zero m xs ys (omega arith) (omega arith))
      before (suc off) (suc o) (suc m) (x ∷ xs) ys h k =
          before off o (suc m) xs ys (omega arith) (omega arith)

  pub length-overwrite :
      (off : ℕ) (bs xs : List A)
      → off + length bs ≤ length xs
      → length (overwrite off bs xs) ≡ length xs
  length-overwrite off bs xs h = omega (
    arith,
    length-append (take off xs) (bs ++ drop (off + length bs) xs),
    length-append bs (drop (off + length bs) xs),
    length-take off xs,
    length-drop (off + length bs) xs,
  )
