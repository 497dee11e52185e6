-- ===== src/Wfs/Tree/Leaf/Refine.antt =====
-- `insert`, `delete` and `update` of a leaf as operations on the list of its entries.
use watos.Common.{
  ℕ, zero, suc, ◌+◌, ◌-◌, ◌≤◌, ◌<◌, ◌≡◌, refl, sym, ap, ◌∙◌, ◌≢◌, inl, inr, true, false, Option,
  none, some, List, [], ◌∷◌, ◌++◌, arith, ltb, leb, ◌==◌, ==_iff, Bool-cases, length, get_elem?,
  take, drop,
}
use watos.Wfs.Tree.Entries.{
  none≢some, length-removed, ascending-removed, get_elem?-removed, rank, lookup, inserted, rank-le,
  get_elem?-inserted, length-inserted, ascending-inserted, removed, lookup_cases, locate, place_at,
}
use watos.Wfs.Tree.{TreeNode, ok, err, node_full, key_not_found, duplicate_key, TreeResult}
use watos.Wfs.Tree.Values.{TreeValue}
use watos.Wfs.Tree.Leaf.{
  insert_at, max_entries, insert_place, insert, delete, delete_place, delete_entry, found,
}
use watos.Wfs.Tree.Leaf.Slots.{
  slot, put, fits_entry, set_entry_lem, length-put, slot-put_self, slot-put_ne,
}
use watos.Wfs.Tree.Leaf.Shift.{slot-InData, with_data, shift_right_lem, shift_left_lem}
use watos.Wfs.Tree.Leaf.Search.{all_fit, IsLeaf, IsLeaf-Readable, search-locate, get_entry-leaf}

module _ {ℓ} {V : Type ℓ} (tv : TreeValue V) where
  all_fit-insert :
      (r : ℕ) (x : ℕ × V) (xs : List (ℕ × V))
      → fits_entry tv x ≡ true
      → all_fit tv xs ≡ true
      → all_fit tv (take r xs ++ x ∷ drop r xs) ≡ true
  all_fit-insert zero x xs h k = rw (h, k) refl
  all_fit-insert (suc r) x [] h k = rw h refl
  all_fit-insert (suc r) x (y ∷ xs) h k = elim (Bool-cases (fits_entry tv y)) [
    | inl t ↦ rw (t, all_fit-insert r x xs h (rw t at k)) refl
    | inr f ↦ absurd (let k' : false ≡ true = rw f at k in cc)
  ]

  all_fit-remove :
      (r : ℕ) (xs : List (ℕ × V))
      → all_fit tv xs ≡ true
      → all_fit tv (take r xs ++ drop (suc r) xs) ≡ true
  all_fit-remove zero [] k = refl
  all_fit-remove zero (y ∷ xs) k = elim (Bool-cases (fits_entry tv y)) [
    | inl t ↦ rw t at k
    | inr f ↦ absurd (let k' : false ≡ true = rw f at k in cc)
  ]
  all_fit-remove (suc r) [] k = refl
  all_fit-remove (suc r) (y ∷ xs) k = elim (Bool-cases (fits_entry tv y)) [
    | inl t ↦ rw (t, all_fit-remove r xs (rw t at k)) refl
    | inr f ↦ absurd (let k' : false ≡ true = rw f at k in cc)
  ]

  -- what an insertion in a leaf gives
  abbrev pub InsertOutcome : ℕ → V → TreeNode → List (ℕ × V) → Type ℓ
  InsertOutcome key value n xs =
      (n' : TreeNode) × (insert tv key value n ≡ some (ok tt, n'))
      × IsLeaf tv n' (inserted key value xs)

  insert_there :
      (key : ℕ) (value : V) (n : TreeNode) (xs : List (ℕ × V))
      → IsLeaf tv n xs
      → length xs < max_entries tv
      → fits_entry tv (key, value) ≡ true
      → lookup key xs ≡ none
      → (n' : TreeNode) × (insert_place tv key value n (insert_at (rank key xs)) ≡ some (ok tt, n'))
        × IsLeaf tv n' (inserted key value xs)
  unfolding insert_place
  insert_there key value n xs v room f absent =
      let r = rank key xs in
      let low = rank-le key xs in
      let c = v.counted in
      let j = n.item_count - r in
      let d = n.data_area in
      let (ys, run, h) =
        shift_right_lem tv r j n v.size (omega arith) (omega arith)
          (λ i lo hi. IsLeaf-Readable tv n xs i v (omega arith)) in
      let into = slot-InData tv r ys (h.size ∙ v.size) (omega arith) in
      let set_it = set_entry_lem tv r key value (with_data tv ys n) (omega arith) into in
      let zs = put tv r key value ys in
      let n' = record n { data_area = zs; item_count = n.item_count + 1 } in
      let other = λ (i : ℕ) (l : i < max_entries tv) (ne : r ≢ i).
        slot-put_ne tv r i key value ys into (slot-InData tv i ys (h.size ∙ v.size) l) ne in
      (
        n',
        rw (run, set_it) refl,
        record {
          counted = omega (arith, length-inserted key value xs);
          size = length-put tv r key value ys into ∙ h.size ∙ v.size;
          room = omega (arith, length-inserted key value xs);
          slots = λ i l.
              let l' : i < length xs + 1 = omega (arith, length-inserted key value xs) in
              elim (Bool-cases (ltb i r)) [
                | inl t ↦
                    rw (get_elem?-inserted r (key, value) xs i low, t)
                      (other i (omega arith) (λ e. ground arith)
                        ∙ h.before i (omega arith) (ground arith)
                        ∙ v.slots i (ground arith))
                | inr g ↦ elim (Bool-cases (i == r)) [
                  | inl e ↦
                      rw (get_elem?-inserted r (key, value) xs i low, g, e)
                        (ap (slot tv zs) ((==_iff i r).0 e)
                          ∙ slot-put_self tv r key value ys into f)
                  | inr ne ↦
                      let p : i - 1 + 1 ≡ i = ground arith in
                      rw (get_elem?-inserted r (key, value) xs i low, g, ne)
                        (other i (omega arith) (λ e. ground arith)
                          ∙ ap (slot tv ys) (sym p)
                          ∙ h.moved (i - 1) (ground arith) (ground arith)
                          ∙ v.slots (i - 1) (ground arith))
                ]
              ];
          fitting = all_fit-insert r (key, value) xs f v.fitting;
          sorted = ascending-inserted key value xs v.sorted absent;
        },
      )

  -- `insert`, case by case
  pub insert_cases :
      (key : ℕ) (value : V) (n : TreeNode) (xs : List (ℕ × V))
      → IsLeaf tv n xs
      → fits_entry tv (key, value) ≡ true
      → (max_entries tv ≤ length xs → insert tv key value n ≡ some (err node_full, n))
        × ((old : V)
            → length xs < max_entries tv
            → lookup key xs ≡ some old
            → insert tv key value n ≡ some (err duplicate_key, n))
        × (length xs < max_entries tv → lookup key xs ≡ none → InsertOutcome key value n xs)
  unfolding insert insert_place
  insert_cases key value n xs v f =
      let c = v.counted in
      let at_place = search-locate tv key n xs v in
      (
        λ full. let t : leb (max_entries tv) n.item_count ≡ true = ground arith in rw t refl,
        λ old room there.
            let t : leb (max_entries tv) n.item_count ≡ false = ground arith in
            elim (lookup_cases key xs v.sorted) [
              | inl (absent, p) ↦ absurd (none≢some (sym absent ∙ there))
              | inr (w, l, g, b) ↦
                  let same : (key == key) ≡ true = ground arith in
                  let place : locate key xs ≡ found (rank key xs) =
                    ap (place_at key (rank key xs)) g ∙ (rw same refl) in
                  rw (t, at_place, place) refl
            ],
        λ room absent.
            let t : leb (max_entries tv) n.item_count ≡ false = ground arith in
            elim (lookup_cases key xs v.sorted) [
              | inr (w, l, g, b) ↦ absurd (none≢some (sym absent ∙ l))
              | inl (l, p) ↦
                  let (n', run, leaf) = insert_there key value n xs v room f absent in
                  (n', rw (t, at_place, p (rank key xs)) run, leaf)
            ],
      )

  -- what a deletion from a leaf gives
  abbrev pub DeleteOutcome : ℕ → V → TreeNode → List (ℕ × V) → Type ℓ
  DeleteOutcome key value n xs =
      (n' : TreeNode) × (delete tv key n ≡ some (ok value, n')) × IsLeaf tv n' (removed key xs)

  delete_there :
      (key : ℕ) {value : V} (n : TreeNode) (xs : List (ℕ × V))
      → IsLeaf tv n xs
      → get_elem? xs (rank key xs) ≡ some (key, value)
      → rank key xs < length xs
      → (n' : TreeNode) × (delete_place tv n (found (rank key xs)) ≡ some (ok value, n'))
        × IsLeaf tv n' (removed key xs)
  unfolding delete_place delete_entry
  delete_there key n xs v there b =
      let r = rank key xs in
      let c = v.counted in
      let room = v.room in
      let j = n.item_count - 1 - r in
      let d = n.data_area in
      let (ys, run, h) =
        shift_left_lem tv r j n v.size (omega arith) (omega arith)
          (λ i lo hi. IsLeaf-Readable tv n xs i v (omega arith)) in
      let n' = record n { data_area = ys; item_count = n.item_count - 1 } in
      let len = length-removed key xs b in
      (
        n',
        rw (get_entry-leaf tv n xs r v b ∙ ap some there, run) refl,
        record {
          counted = omega arith;
          size = h.size ∙ v.size;
          room = omega arith;
          slots = λ i l. elim (Bool-cases (ltb i r)) [
            | inl t ↦
                rw (get_elem?-removed r xs i, t)
                  (h.before i (omega arith) (ground arith) ∙ v.slots i (ground arith))
            | inr g ↦
                rw (get_elem?-removed r xs i, g)
                  (h.moved i (ground arith) (omega arith) ∙ v.slots (i + 1) (omega arith))
          ];
          fitting = all_fit-remove r xs v.fitting;
          sorted = ascending-removed key xs v.sorted;
        },
      )

  with_value : TreeNode → Option V → Option (TreeResult V × TreeNode)
  with_value n none = none
  with_value n (some value) = some (ok value, n)

  -- `delete`, case by case
  pub delete_cases :
      (key : ℕ) (n : TreeNode) (xs : List (ℕ × V))
      → IsLeaf tv n xs
      → (lookup key xs ≡ none → delete tv key n ≡ some (err key_not_found, n))
        × ((value : V) → lookup key xs ≡ some value → DeleteOutcome key value n xs)
  unfolding delete delete_place with_value
  delete_cases key n xs v =
      let at_place = search-locate tv key n xs v in
      elim (lookup_cases key xs v.sorted) [
        | inl (l, p) ↦ (
          λ absent. rw (at_place, p (rank key xs)) refl,
          λ value there. absurd (none≢some (sym l ∙ there)),
        )
        | inr (w, l, g, b) ↦ (
          λ absent. absurd (none≢some (sym absent ∙ l)),
          λ value there.
              let (n', run, leaf) = delete_there key n xs v g b in
              let same : (key == key) ≡ true = ground arith in
              let place : locate key xs ≡ found (rank key xs) =
                ap (place_at key (rank key xs)) g ∙ (rw same refl) in
              let value_is : some w ≡ some value = sym l ∙ there in
              (n', rw (at_place, place) (run ∙ ap (with_value n') value_is), leaf),
        )
      ]
