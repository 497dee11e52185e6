-- ===== src/Vfs/Mount/Longest.antt =====
-- Resolution of a path is the choice of the longest mount path that covers it, in whatever order the
-- mounts were made.
use watos.Common.{
  ℕ, ◌≤◌, ◌<◌, ◌≡◌, refl, ap, ◌∙◌, inl, inr, Bool, true, false, ◌&&◌, ◌||◌, Option, none, some,
  List, [], ◌∷◌, arith, ltb, leb, if◌then◌else◌, ltb→lt, Bool-cases, length, drop,
}
use watos.FilePath.{slash, separator}
use watos.FilePath.Text.{text_eq, starts_with}
use watos.Vfs.Types.{VfsResult, ok, err, not_mounted}
use watos.Vfs.Mount.{MountPoint, is_prefix, insert_by_length, sort_by_length, resolve_from}

module _ {F : Type 0} where
  -- The mount path is the path, or whole components at its front.
  unfoldable pub covers : List ℕ → MountPoint F → Bool
  unfolding is_prefix
  covers path m =
      text_eq path (m.path)
      || (is_prefix (m.path) path
          && (text_eq (m.path) slash || starts_with separator (drop (length (m.path)) path)))

  -- the mount or the one that was chosen, by the lengths of their paths
  abbrev pub longer : MountPoint F → Option (MountPoint F) → Option (MountPoint F)
  longer m none = some m
  longer m (some k) = if ltb (length (m.path)) (length (k.path)) then some k else some m

  abbrev pub pick : List ℕ → MountPoint F → Option (MountPoint F) → Option (MountPoint F)
  pick path m r = if covers path m then longer m r else r

  -- the longest mount path that covers `path`
  unfoldable pub longest : List ℕ → List (MountPoint F) → Option (MountPoint F)
  longest path [] = none
  longest path (m ∷ ms) = pick path m (longest path ms)

  -- the file system of a mount, with what follows the mount path
  unfoldable pub within : List ℕ → MountPoint F → F × List ℕ
  within path m = (
    m.filesystem,
    if text_eq path (m.path)
        then slash
        else if text_eq (m.path) slash
        then path
        else drop (length (m.path)) path,
  )

  abbrev pub answer : List ℕ → Option (MountPoint F) → VfsResult (F × List ℕ)
  answer path none = err not_mounted
  answer path (some m) = ok (within path m)

  -- no path of the list is longer
  abbrev pub at_most : ℕ → List (MountPoint F) → Bool
  at_most n [] = true
  at_most n (m ∷ ms) = leb (length (m.path)) n && at_most n ms

  abbrev pub descending : List (MountPoint F) → Bool
  descending [] = true
  descending (m ∷ ms) = at_most (length (m.path)) ms && descending ms

  pick-at_most :
      (path : List ℕ) (n : ℕ) (m k : MountPoint F) (c : Bool) (r : Option (MountPoint F))
      → leb (length (m.path)) n ≡ true
      → ((j : MountPoint F) → r ≡ some j → length (j.path) ≤ n)
      → (if c then longer m r else r) ≡ some k
      → length (k.path) ≤ n
  pick-at_most path n m k false r h ih e = ih k e
  pick-at_most path n m k true none h ih e =
      let same : m ≡ k = cc in ground (arith, ap (λ (x : MountPoint F). length (x.path)) same)
  pick-at_most path n m k true (some j) h ih e =
      elim (Bool-cases (ltb (length (m.path)) (length (j.path)))) [
        | inl t ↦ ih k (rw t at e)
        | inr f ↦
            let same : m ≡ k = let kept = rw f at e in cc in
            ground (arith, ap (λ (x : MountPoint F). length (x.path)) same)
      ]

  longest-at_most :
      (path : List ℕ) (n : ℕ) (ms : List (MountPoint F)) (k : MountPoint F)
      → at_most n ms ≡ true
      → longest path ms ≡ some k
      → length (k.path) ≤ n
  unfolding longest
  longest-at_most path n [] k h e = cc
  longest-at_most path n (m ∷ ms) k h e =
      let rest : at_most n ms ≡ true = ground arith in
      pick-at_most path n m k (covers path m) (longest path ms) (ground arith)
        (λ j. longest-at_most path n ms j rest) e

  longer-top :
      (m : MountPoint F) (r : Option (MountPoint F))
      → ((j : MountPoint F) → r ≡ some j → length (j.path) ≤ length (m.path))
      → longer m r ≡ some m
  longer-top m none h = refl
  longer-top m (some j) h =
      let low = h j refl in
      let f : ltb (length (m.path)) (length (j.path)) ≡ false = ground arith in rw f refl

  -- one round of the loop
  round_lem :
      (path : List ℕ) (m : MountPoint F) (ms : List (MountPoint F))
      → resolve_from path (m ∷ ms)
        ≡ (if covers path m then ok (within path m) else resolve_from path ms)
  unfolding resolve_from covers within
  round_lem path m ms = elim (Bool-cases (text_eq path (m.path))) [
    | inl t ↦ rw t refl
    | inr f ↦ elim (Bool-cases (is_prefix (m.path) path)) [
      | inr g ↦ rw (f, g) refl
      | inl t ↦
          elim (Bool-cases
            (text_eq (m.path) slash || starts_with separator (drop (length (m.path)) path))) [
              | inl u ↦ rw (f, t, u) refl
              | inr g ↦ rw (f, t, g) refl
            ]
    ]
  ]

  -- In a list that is sorted, the first that covers is the longest.
  pub resolve_from-longest :
      (path : List ℕ) (ms : List (MountPoint F))
      → descending ms ≡ true
      → resolve_from path ms ≡ answer path (longest path ms)
  unfolding longest
  resolve_from-longest path [] h = unfold resolve_from in refl
  resolve_from-longest path (m ∷ ms) h =
      let top : at_most (length (m.path)) ms ≡ true = ground arith in
      let rest = resolve_from-longest path ms (ground arith) in
      let chosen =
        longer-top m (longest path ms) (λ j. longest-at_most path (length (m.path)) ms j top) in
      round_lem path m ms
      ∙ elim (Bool-cases (covers path m)) [ inl t ↦ rw (t, chosen) refl | inr f ↦ rw f rest ]

  swap_lem :
      (x y : MountPoint F) (a b : Bool) (r : Option (MountPoint F))
      → length (x.path) < length (y.path)
      → (if b then longer y (if a then longer x r else r) else (if a then longer x r else r))
        ≡ (if a then longer x (if b then longer y r else r) else (if b then longer y r else r))
  swap_lem x y false false r h = refl
  swap_lem x y false true r h = refl
  swap_lem x y true false r h = refl
  swap_lem x y true true none h =
      let f : ltb (length (y.path)) (length (x.path)) ≡ false = ground arith in
      let t : ltb (length (x.path)) (length (y.path)) ≡ true = ground arith in rw (f, t) refl
  swap_lem x y true true (some j) h =
      let xy : ltb (length (x.path)) (length (y.path)) ≡ true = ground arith in
      let yx : ltb (length (y.path)) (length (x.path)) ≡ false = ground arith in
      elim (Bool-cases (ltb (length (y.path)) (length (j.path)))) [
        | inl t ↦
            let xj : ltb (length (x.path)) (length (j.path)) ≡ true = ground arith in
            rw (xj, t, xj) refl
        | inr f ↦ elim (Bool-cases (ltb (length (x.path)) (length (j.path)))) [
          | inl t ↦ rw (t, f, xy) refl
          | inr g ↦ rw (g, f, yx, xy) refl
        ]
      ]

  longest-insert :
      (path : List ℕ) (m : MountPoint F) (ms : List (MountPoint F))
      → longest path (insert_by_length m ms) ≡ longest path (m ∷ ms)
  unfolding longest insert_by_length
  longest-insert path m [] = refl
  longest-insert path m (x ∷ xs) = elim (Bool-cases (ltb (length (m.path)) (length (x.path)))) [
    | inl t ↦ rw t (
        ap (pick path x) (longest-insert path m xs)
        ∙ swap_lem m x (covers path m) (covers path x) (longest path xs) (ltb→lt _ _ t))
    | inr f ↦ rw f refl
  ]

  -- The order of the mounts does not matter.
  pub longest-sort :
      (path : List ℕ) (ms : List (MountPoint F))
      → longest path (sort_by_length ms) ≡ longest path ms
  unfolding longest sort_by_length
  longest-sort path [] = refl
  longest-sort path (m ∷ ms) =
      longest-insert path m (sort_by_length ms) ∙ ap (pick path m) (longest-sort path ms)
