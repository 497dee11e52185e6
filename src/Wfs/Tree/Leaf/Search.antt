-- ===== src/Wfs/Tree/Leaf/Search.antt =====
-- A leaf as the list of its entries, and the binary search in it.
use watos.Common.{
  ℕ, zero, suc, ◌+◌, ◌-◌, ◌/◌, ◌≤◌, ◌<◌, ◌≡◌, refl, sym, ap, ◌∙◌, inl, inr, Bool, true, false, ◌&&◌,
  Option, none, some, List, [], ◌∷◌, arith, ltb, ◌==◌, if◌then◌else◌, ltb→lt, Bool-cases, length,
  get_elem?,
}
use watos.Common.Slices.{get_elem?-at}
use watos.Wfs.Tree.{TreeNode, node_data_size}
use watos.Wfs.Tree.Values.{TreeValue}
use watos.Wfs.Tree.Entries.{
  none≢some, ascending, rank, place_at, locate, rank-le, below_rank, past_rank,
}
use watos.Wfs.Tree.Leaf.{Place, found, insert_at, max_entries, get_entry, search_from, search}
use watos.Wfs.Tree.Leaf.Slots.{slot, fits_entry, get_entry_lem}
use watos.Wfs.Tree.Leaf.Shift.{slot-InData, Readable}

module _ {ℓ} {V : Type ℓ} (tv : TreeValue V) where
  abbrev pub all_fit : List (ℕ × V) → Bool
  all_fit [] = true
  all_fit (x ∷ xs) = fits_entry tv x && all_fit xs

  -- The node holds the entries of the list, in its order, which is that of the keys.
  pub record IsLeaf (n : TreeNode) (xs : List (ℕ × V)) : Type ℓ where
    pub counted : n.item_count ≡ length xs
    pub size : length n.data_area ≡ node_data_size
    pub room : length xs ≤ max_entries tv
    pub slots : (i : ℕ) → i < length xs → slot tv n.data_area i ≡ get_elem? xs i
    pub fitting : all_fit xs ≡ true
    pub sorted : ascending xs ≡ true

  all_fit-get_elem? :
      (xs : List (ℕ × V)) (i : ℕ) {x : ℕ × V}
      → all_fit xs ≡ true
      → get_elem? xs i ≡ some x
      → fits_entry tv x ≡ true
  all_fit-get_elem? [] i h e = absurd (none≢some e)
  all_fit-get_elem? (x ∷ xs) zero h e =
      sym (ap (λ o. elim o [ none ↦ true | some y ↦ fits_entry tv y ]) e) ∙ front h
    where
      front : all_fit (x ∷ xs) ≡ true → fits_entry tv x ≡ true
      front h = elim (Bool-cases (fits_entry tv x)) [
        | inl yes_ ↦ yes_
        | inr no_ ↦ absurd (let h' : false ≡ true = rw no_ at h in cc)
      ]
  all_fit-get_elem? (x ∷ xs) (suc i) h e = all_fit-get_elem? xs i (ground arith) e

  pub IsLeaf-Readable :
      (n : TreeNode) (xs : List (ℕ × V)) (i : ℕ)
      → IsLeaf n xs
      → i < length xs
      → Readable tv n.data_area i
  IsLeaf-Readable n xs i v h =
      let ((k, value), e, p) = get_elem?-at xs i h in
      record {
        key = k;
        value = value;
        there = v.slots i h ∙ e;
        fitting = all_fit-get_elem? xs i v.fitting e;
      }

  pub get_entry-leaf :
      (n : TreeNode) (xs : List (ℕ × V)) (i : ℕ)
      → IsLeaf n xs
      → i < length xs
      → get_entry tv i n ≡ some (get_elem? xs i)
  get_entry-leaf n xs i v h =
      get_entry_lem tv i n (let c = v.counted in omega arith)
        (slot-InData tv i n.data_area v.size (let r = v.room in omega arith))
      ∙ ap some (v.slots i h)

  -- One round: the key in the middle of the interval decides in which half the rank lies.
  round_lem :
      (k mid key : ℕ) {value : V} (xs : List (ℕ × V)) (upper lower : Option Place)
      → ascending xs ≡ true
      → get_elem? xs mid ≡ some (key, value)
      → (mid < rank k xs → upper ≡ some (locate k xs))
      → (rank k xs ≤ mid
          → (rank k xs ≡ mid → locate k xs ≡ insert_at (rank k xs))
          → lower ≡ some (locate k xs))
      → (if ltb key k then upper else if ltb k key then lower else some (found mid))
        ≡ some (locate k xs)
  round_lem k mid key xs upper lower s e up low =
      let not_before : k ≤ key → rank k xs ≤ mid = λ h. elim (Bool-cases (ltb mid (rank k xs))) [
        | inl t ↦ absurd (let b = below_rank k xs mid e (ltb→lt mid (rank k xs) t) in omega arith)
        | inr f ↦ ground arith
      ] in
      elim (Bool-cases (ltb key k)) [
        | inl t ↦ rw t (
            up (elim (Bool-cases (ltb mid (rank k xs))) [
              | inl l ↦ ltb→lt mid (rank k xs) l
              | inr l ↦ absurd (let p = (past_rank k xs mid s e (ground arith)).0 in ground arith)
            ]))
        | inr f ↦ elim (Bool-cases (ltb k key)) [
          | inl t ↦
              let le = not_before (ground arith) in
              let differs : (key == k) ≡ false = ground arith in
              rw (f, t)
                (low le (λ same.
                  ap (place_at k (rank k xs)) (ap (get_elem? xs) same ∙ e) ∙ (rw differs refl)))
          | inr g ↦
              let le = not_before (ground arith) in
              let equal : (key == k) ≡ true = ground arith in
              let same : rank k xs ≡ mid = elim (Bool-cases (ltb (rank k xs) mid)) [
                | inl l ↦ absurd (
                    let p = (past_rank k xs mid s e le).1 (ltb→lt (rank k xs) mid l) in
                    ground arith)
                | inr l ↦ ground arith
              ] in
              rw (f, g)
                (ap some (
                  sym (
                    ap (place_at k (rank k xs)) (ap (get_elem? xs) same ∙ e)
                    ∙ (rw (equal, same) refl))))
        ]
      ]

  -- The interval holds the rank of the key, and where it ends at the rank, the key is not there.
  search_from_lem :
      (k : ℕ) (n : TreeNode) (xs : List (ℕ × V))
      → IsLeaf n xs
      → (fuel left right : ℕ) → right - left < fuel
      → left ≤ rank k xs
      → rank k xs ≤ right
      → right ≤ length xs
      → (rank k xs ≡ right → locate k xs ≡ insert_at (rank k xs))
      → search_from tv fuel k n left right ≡ some (locate k xs)
  unfolding search_from
  search_from_lem k n xs v zero left right f lo hi r out = absurd (omega arith)
  search_from_lem k n xs v (suc fuel) left right f lo hi r out =
      elim (Bool-cases (ltb left right)) [
        | inr done ↦
            let e : left ≡ rank k xs = ground arith in
            rw (done, out (ground arith)) (ap (λ i. some (insert_at i)) e)
        | inl more ↦
            let mid = left + (right - left) / 2 in
            let inside : mid < right = ground arith in
            let ((key, value), e, p) = get_elem?-at xs mid (omega arith) in
            let got = get_entry-leaf n xs mid v (omega arith) ∙ ap some e in
            let past = past_rank k xs mid v.sorted e in
            rw (more, got)
              (round_lem k mid key xs _ _ v.sorted e
                (λ h.
                  search_from_lem k n xs v fuel (mid + 1) right (omega arith) (omega arith) hi r
                    out)
                (λ h g. search_from_lem k n xs v fuel left mid (omega arith) lo h (omega arith) g))
      ]

  -- In a leaf that holds the entries of a list in ascending order, the loop of the binary search ends
  -- within one round more than there are entries (a loop that goes on gives no place), without a panic,
  -- and gives what a search of the list from its front gives: where the key is, or the place to insert
  -- it.
  pub search-locate :
      (k : ℕ) (n : TreeNode) (xs : List (ℕ × V)) → IsLeaf n xs → search tv k n ≡ some (locate k xs)
  unfolding search
  search-locate k n xs v =
      let c = v.counted in
      search_from_lem k n xs v (n.item_count + 1) 0 n.item_count (omega arith) (omega arith)
        (omega (arith, rank-le k xs)) (omega arith) (λ e. past_end (e ∙ c))
    where
      get_elem?-end : (ys : List (ℕ × V)) → get_elem? ys (length ys) ≡ none
      get_elem?-end [] = refl
      get_elem?-end (y ∷ ys) = get_elem?-end ys

      past_end : rank k xs ≡ length xs → locate k xs ≡ insert_at (rank k xs)
      past_end e = ap (place_at k (rank k xs)) (ap (get_elem? xs) e ∙ get_elem?-end xs)
