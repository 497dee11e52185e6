-- ===== src/Wfs/Tree/Leaf/Shift.antt =====
-- The loops that move the entries of a leaf by one slot.
use watos.Common.{
  ℕ, zero, suc, ◌+◌, ◌≤◌, ◌<◌, ◌≡◌, refl, sym, ap, ◌∙◌, ◌≢◌, inl, inr, true, some, List, arith,
  ◌==◌, ==_iff, Bool-cases, length,
}
use watos.Wfs.Tree.{TreeNode, node_data_size}
use watos.Wfs.Tree.Values.{TreeValue}
use watos.Wfs.Tree.Leaf.{entry_size, max_entries, copy_entry, shift_right, shift_left}
use watos.Wfs.Tree.Leaf.Slots.{
  InData, slot, put, fits_entry, get_entry_lem, set_entry_lem, length-put, slot-put_self,
  slot-put_ne,
}
use native.Mathlib.Nat.{div-mul-le_self}

module _ {ℓ} {V : Type ℓ} (tv : TreeValue V) where
  -- Every slot below the number of slots is in the data.
  pub slot-InData :
      (i : ℕ) (xs : List ℕ) → length xs ≡ node_data_size → i < max_entries tv → InData tv i xs
  slot-InData i xs h k = let whole = div-mul-le_self node_data_size (entry_size tv) in grind arith

  -- The slot holds an entry that fits.
  pub record Readable (xs : List ℕ) (i : ℕ) : Type ℓ where
    pub key : ℕ
    pub value : V
    pub there : slot tv xs i ≡ some (key, value)
    pub fitting : fits_entry tv (key, value) ≡ true

  -- the node with other data
  abbrev pub with_data : List ℕ → TreeNode → TreeNode
  with_data xs n = record n { data_area = xs }

  put-Readable :
      (i j key : ℕ) (value : V) (xs : List ℕ)
      → InData tv i xs
      → InData tv j xs
      → i ≢ j
      → Readable xs j
      → Readable (put tv i key value xs) j
  put-Readable i j key value xs h k ne r = record {
    key = r.key;
    value = r.value;
    there = slot-put_ne tv i j key value xs h k ne ∙ r.there;
    fitting = r.fitting;
  }

  -- `j` entries are moved right by one, from `pos` on; no other slot changes but the one after them.
  pub record MovedRight (pos j : ℕ) (xs ys : List ℕ) : Type ℓ where
    pub size : length ys ≡ length xs
    pub moved : (i : ℕ) → pos ≤ i → i < pos + j → slot tv ys (i + 1) ≡ slot tv xs i
    pub before : (i : ℕ) → i < max_entries tv → i ≤ pos → slot tv ys i ≡ slot tv xs i
    pub after : (i : ℕ) → i < max_entries tv → pos + j < i → slot tv ys i ≡ slot tv xs i

  pub shift_right_lem :
      (pos j : ℕ) (n : TreeNode)
      → length n.data_area ≡ node_data_size
      → pos + j ≤ n.item_count
      → n.item_count < max_entries tv
      → ((i : ℕ) → pos ≤ i → i < pos + j → Readable n.data_area i)
      → (ys : List ℕ) × (shift_right tv pos j n ≡ some (with_data ys n))
        × MovedRight pos j n.data_area ys
  unfolding shift_right copy_entry
  shift_right_lem pos zero n s c m r = (
    n.data_area,
    refl,
    record {
      size = refl;
      moved = λ i lo hi. absurd (omega arith);
      before = λ i h l. refl;
      after = λ i h l. refl;
    },
  )
  shift_right_lem pos (suc j) n s c m r =
      let i = pos + j in
      let xs = n.data_area in
      let e = r i (omega arith) (omega arith) in
      let at_slot = λ (q : ℕ) (l : q < max_entries tv). slot-InData q xs s l in
      let into = at_slot (i + 1) (omega arith) in
      let ys = put tv (i + 1) e.key e.value xs in
      let other = λ (q : ℕ) (l : q < max_entries tv) (ne : i + 1 ≢ q).
        slot-put_ne tv (i + 1) q e.key e.value xs into (at_slot q l) ne in
      let got = get_entry_lem tv i n (omega arith) (at_slot i (omega arith)) ∙ ap some e.there in
      let done = set_entry_lem tv (i + 1) e.key e.value n (omega arith) into in
      let (zs, run, h) =
        shift_right_lem pos j (with_data ys n) (length-put tv (i + 1) e.key e.value xs into ∙ s)
          (omega arith) m
          (λ q lo hi.
            put-Readable (i + 1) q e.key e.value xs into (at_slot q (omega arith))
              (λ eq. absurd (omega arith)) (r q lo (omega arith))) in
      (
        zs,
        rw (got, done) run,
        record {
          size = h.size ∙ length-put tv (i + 1) e.key e.value xs into;
          moved = λ q lo hi. elim (Bool-cases (q == i)) [
            | inl same ↦ rw ((==_iff q i).0 same) (
                h.after (i + 1) (omega arith) (omega arith)
                ∙ slot-put_self tv (i + 1) e.key e.value xs into e.fitting
                ∙ sym e.there)
            | inr ne ↦
                h.moved q lo (ground arith) ∙ other q (omega arith) (λ eq. absurd (omega arith))
          ];
          before = λ q l lo. h.before q l lo ∙ other q l (λ eq. absurd (omega arith));
          after = λ q l hi. h.after q l (omega arith) ∙ other q l (λ eq. absurd (omega arith));
        },
      )

  -- `j` entries are moved left by one, to `pos` and the slots after it; no other slot changes.
  pub record MovedLeft (pos j : ℕ) (xs ys : List ℕ) : Type ℓ where
    pub size : length ys ≡ length xs
    pub moved : (i : ℕ) → pos ≤ i → i < pos + j → slot tv ys i ≡ slot tv xs (i + 1)
    pub before : (i : ℕ) → i < max_entries tv → i < pos → slot tv ys i ≡ slot tv xs i
    pub after : (i : ℕ) → i < max_entries tv → pos + j ≤ i → slot tv ys i ≡ slot tv xs i

  pub shift_left_lem :
      (pos j : ℕ) (n : TreeNode)
      → length n.data_area ≡ node_data_size
      → pos + j < n.item_count
      → n.item_count ≤ max_entries tv
      → ((i : ℕ) → pos < i → i ≤ pos + j → Readable n.data_area i)
      → (ys : List ℕ) × (shift_left tv pos j n ≡ some (with_data ys n))
        × MovedLeft pos j n.data_area ys
  unfolding shift_left copy_entry
  shift_left_lem pos zero n s c m r = (
    n.data_area,
    refl,
    record {
      size = refl;
      moved = λ i lo hi. absurd (omega arith);
      before = λ i h l. refl;
      after = λ i h l. refl;
    },
  )
  shift_left_lem pos (suc j) n s c m r =
      let xs = n.data_area in
      let e = r (pos + 1) (omega arith) (omega arith) in
      let at_slot = λ (q : ℕ) (l : q < max_entries tv). slot-InData q xs s l in
      let into = at_slot pos (omega arith) in
      let ys = put tv pos e.key e.value xs in
      let other = λ (q : ℕ) (l : q < max_entries tv) (ne : pos ≢ q).
        slot-put_ne tv pos q e.key e.value xs into (at_slot q l) ne in
      let got =
        get_entry_lem tv (pos + 1) n (omega arith) (at_slot (pos + 1) (omega arith))
        ∙ ap some e.there in
      let done = set_entry_lem tv pos e.key e.value n (omega arith) into in
      let (zs, run, h) =
        shift_left_lem (pos + 1) j (with_data ys n) (length-put tv pos e.key e.value xs into ∙ s)
          (omega arith) m
          (λ q lo hi.
            put-Readable pos q e.key e.value xs into (at_slot q (omega arith))
              (λ eq. absurd (omega arith)) (r q (omega arith) (omega arith))) in
      (
        zs,
        rw (got, done) run,
        record {
          size = h.size ∙ length-put tv pos e.key e.value xs into;
          moved = λ q lo hi. elim (Bool-cases (q == pos)) [
            | inl same ↦ rw ((==_iff q pos).0 same) (
                h.before pos (omega arith) (omega arith)
                ∙ slot-put_self tv pos e.key e.value xs into e.fitting
                ∙ sym e.there)
            | inr ne ↦
                h.moved q (ground arith) (omega arith)
                ∙ other (q + 1) (omega arith) (λ eq. absurd (omega arith))
          ];
          before = λ q l lo. h.before q l (omega arith) ∙ other q l (λ eq. absurd (omega arith));
          after = λ q l hi. h.after q l (omega arith) ∙ other q l (λ eq. absurd (omega arith));
        },
      )
