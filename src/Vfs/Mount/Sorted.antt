-- ===== src/Vfs/Mount/Sorted.antt =====
-- The list of mounts: what sorting it and removing from it keep.
use watos.Common.{
  ℕ, zero, suc, ◌≤◌, ◌<◌, ◌≡◌, refl, sym, ap, ◌∙◌, inl, inr, true, false, some, List, [], ◌∷◌, ◌++◌,
  arith, ltb, leb, ◌==◌, Bool-cases, length, take, drop,
}
use watos.FilePath.Text.{text_eq}
use watos.FilePath.Parts.{text_eq_refl, eq_of_text_eq}
use watos.Vfs.Mount.{MountPoint, is_prefix, any_at, insert_by_length, sort_by_length}
use watos.Vfs.Mount.Longest.{covers, pick, longest, at_most, descending}

-- a prefix that is not the whole text is shorter
prefix-lt :
    (p text : List ℕ) → is_prefix p text ≡ true → text_eq p text ≡ false → length p < length text
unfolding is_prefix text_eq
prefix-lt [] [] h g = cc
prefix-lt [] (y ∷ ys) h g = omega arith
prefix-lt (x ∷ xs) [] h g = cc
prefix-lt (x ∷ xs) (y ∷ ys) h g =
    let same : (x == y) ≡ true = ground arith in
    let other : text_eq xs ys ≡ false = ground arith in
    omega (arith, prefix-lt xs ys (ground arith) other)

module _ {F : Type 0} where
  at_most-insert :
      (n : ℕ) (m : MountPoint F) (ms : List (MountPoint F))
      → leb (length (m.path)) n ≡ true
      → at_most n ms ≡ true
      → at_most n (insert_by_length m ms) ≡ true
  unfolding insert_by_length
  at_most-insert n m [] h g = rw h refl
  at_most-insert n m (x ∷ xs) h g =
      let first : leb (length (x.path)) n ≡ true = ground arith in
      let rest : at_most n xs ≡ true = ground arith in
      elim (Bool-cases (ltb (length (m.path)) (length (x.path)))) [
        | inl t ↦ rw (t, first) (at_most-insert n m xs h rest)
        | inr f ↦ rw (f, h, first) rest
      ]

  at_most-le :
      (n k : ℕ) (ms : List (MountPoint F)) → n ≤ k → at_most n ms ≡ true → at_most k ms ≡ true
  at_most-le n k [] h g = refl
  at_most-le n k (m ∷ ms) h g =
      let first : leb (length (m.path)) k ≡ true = ground arith in
      rw first (at_most-le n k ms h (ground arith))

  descending-insert :
      (m : MountPoint F) (ms : List (MountPoint F))
      → descending ms ≡ true
      → descending (insert_by_length m ms) ≡ true
  unfolding insert_by_length
  descending-insert m [] h = refl
  descending-insert m (x ∷ xs) h =
      let top : at_most (length (x.path)) xs ≡ true = ground arith in
      let rest : descending xs ≡ true = ground arith in
      elim (Bool-cases (ltb (length (m.path)) (length (x.path)))) [
        | inl t ↦
            let low : leb (length (m.path)) (length (x.path)) ≡ true = ground arith in
            rw (t, at_most-insert (length (x.path)) m xs low top) (descending-insert m xs rest)
        | inr f ↦
            let low : leb (length (x.path)) (length (m.path)) ≡ true = ground arith in
            let below = at_most-le (length (x.path)) (length (m.path)) xs (ground arith) top in
            rw (f, low, below, top) rest
      ]

  pub descending-sort : (ms : List (MountPoint F)) → descending (sort_by_length ms) ≡ true
  unfolding sort_by_length
  descending-sort [] = refl
  descending-sort (m ∷ ms) = descending-insert m (sort_by_length ms) (descending-sort ms)

  length-insert :
      (m : MountPoint F) (ms : List (MountPoint F))
      → length (insert_by_length m ms) ≡ suc (length ms)
  unfolding insert_by_length
  length-insert m [] = refl
  length-insert m (x ∷ xs) = elim (Bool-cases (ltb (length (m.path)) (length (x.path)))) [
    | inl t ↦ rw t (ap suc (length-insert m xs))
    | inr f ↦ rw f refl
  ]

  pub length-sort : (ms : List (MountPoint F)) → length (sort_by_length ms) ≡ length ms
  unfolding sort_by_length
  length-sort [] = refl
  length-sort (m ∷ ms) = length-insert m (sort_by_length ms) ∙ ap suc (length-sort ms)

  at_most-removed :
      (n i : ℕ) (ms : List (MountPoint F))
      → at_most n ms ≡ true
      → at_most n (take i ms ++ drop (suc i) ms) ≡ true
  at_most-removed n zero [] h = refl
  at_most-removed n zero (m ∷ ms) h = ground arith
  at_most-removed n (suc i) [] h = refl
  at_most-removed n (suc i) (m ∷ ms) h =
      let first : leb (length (m.path)) n ≡ true = ground arith in
      rw first (at_most-removed n i ms (ground arith))

  pub descending-removed :
      (i : ℕ) (ms : List (MountPoint F))
      → descending ms ≡ true
      → descending (take i ms ++ drop (suc i) ms) ≡ true
  descending-removed zero [] h = refl
  descending-removed zero (m ∷ ms) h = ground arith
  descending-removed (suc i) [] h = refl
  descending-removed (suc i) (m ∷ ms) h =
      let top : at_most (length (m.path)) ms ≡ true = ground arith in
      rw (at_most-removed (length (m.path)) i ms top) (descending-removed i ms (ground arith))

  covers-lt :
      (path : List ℕ) (m : MountPoint F)
      → covers path m ≡ true
      → text_eq (m.path) path ≡ false
      → length (m.path) < length path
  unfolding covers
  covers-lt path m h g = elim (Bool-cases (text_eq path (m.path))) [
    | inl t ↦
        let same : text_eq (m.path) path ≡ true =
          rw (← eq_of_text_eq path (m.path) t) (text_eq_refl path) in
        let clash : true ≡ false = sym same ∙ g in cc
    | inr f ↦ prefix-lt (m.path) path (ground arith) g
  ]

  -- The mount at the path itself is the longest.
  pub longest-own :
      (path : List ℕ) (m : MountPoint F) (ms : List (MountPoint F))
      → m.path ≡ path
      → any_at path ms ≡ false
      → longest path (ms ++ m ∷ []) ≡ some m
  unfolding longest any_at
  longest-own path m [] e h =
      let here : covers path m ≡ true = unfold covers in rw (e, text_eq_refl path) refl in
      rw here refl
  longest-own path m (x ∷ xs) e h =
      let other : text_eq (x.path) path ≡ false = ground arith in
      rw (longest-own path m xs e (ground arith)) (elim (Bool-cases (covers path x)) [
        | inl t ↦
            let low = covers-lt path x t other in
            let longer_lem : ltb (length (x.path)) (length (m.path)) ≡ true = rw e (ground arith) in
            rw (t, longer_lem) refl
        | inr f ↦ rw f refl
      ])

  pub longest-other :
      (path : List ℕ) (m : MountPoint F) (ms : List (MountPoint F))
      → covers path m ≡ false
      → longest path (ms ++ m ∷ []) ≡ longest path ms
  unfolding longest
  longest-other path m [] h = rw h refl
  longest-other path m (x ∷ xs) h = ap (pick path x) (longest-other path m xs h)
