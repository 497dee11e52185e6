-- ===== src/Wfs/Tree/Leaf/Slots.antt =====
-- The entries of a leaf as slots of its data: what is read where, after an entry was written.
use watos.Common.{
  ℕ, zero, suc, ◌+◌, ◌*◌, ◌^◌, ◌≤◌, ◌<◌, ◌≡◌, refl, sym, ap, ◌∙◌, ◌≢◌, ◌⊎◌, inl, inr, Bool, true,
  false, ◌&&◌, Option, some, List, [], ◌∷◌, ◌++◌, arith, ltb, leb, ltb→lt, Bool-cases, length, take,
  drop, length-take,
}
use watos.Common.Slices.{
  overwrite, drop-drop, drop-overwrite, drop-overwrite_after, take-overwrite_before,
  length-overwrite,
}
use watos.Wfs.Tree.Bytes.{to_le, length-to_le, from_le-to_le}
use watos.Wfs.Tree.Values.{TreeValue}
use watos.Wfs.Tree.{TreeNode}
use watos.Wfs.Tree.Leaf.{write_bytes, entry_size, read_entry, get_entry, set_entry}

write_bytes_lem :
    (off : ℕ) (bs xs : List ℕ)
    → off + length bs ≤ length xs
    → write_bytes off bs xs ≡ some (overwrite off bs xs)
unfolding write_bytes
write_bytes_lem off bs xs h =
    let a : ltb (length xs) off ≡ false = ground arith in
    let b : leb (off + length bs) (length xs) ≡ true = ground arith in rw (a, b) refl

take-take :
    {A : Type 0} (m n : ℕ) (xs ys : List A) → m ≤ n → take n xs ≡ take n ys → take m xs ≡ take m ys
take-take m n xs ys h e = sym (once m n xs h) ∙ ap (take m) e ∙ once m n ys h
  where
    once : {A : Type 0} (m n : ℕ) (xs : List A) → m ≤ n → take m (take n xs) ≡ take m xs
    once zero n xs h = refl
    once (suc m) zero xs h = absurd (omega arith)
    once (suc m) (suc n) [] h = refl
    once (suc m) (suc n) (x ∷ xs) h = ap (λ r. x ∷ r) (once m n xs (omega arith))

drop-take :
    {A : Type 0} (m n : ℕ) (xs ys : List A)
    → take (m + n) xs ≡ take (m + n) ys
    → take n (drop m xs) ≡ take n (drop m ys)
drop-take m n xs ys e = sym (once m n xs) ∙ ap (drop m) e ∙ once m n ys
  where
    once : {A : Type 0} (m n : ℕ) (xs : List A) → drop m (take (m + n) xs) ≡ take n (drop m xs)
    once zero n xs = let z : 0 + n ≡ n = omega arith in rw z refl
    once (suc m) zero [] = let z : suc m + 0 ≡ suc m = omega arith in rw z refl
    once (suc m) (suc n) [] = let z : suc m + suc n ≡ suc (m + suc n) = omega arith in rw z refl
    once (suc m) n (x ∷ xs) = let z : suc m + n ≡ suc (m + n) = omega arith in rw z (once m n xs)

ℕ_order : (i j : ℕ) → (i < j) ⊎ (j ≤ i)
ℕ_order i j = elim (Bool-cases (ltb i j)) [
  | inl h ↦ inl (ltb→lt i j h)
  | inr h ↦ inr (ground arith)
]

-- Slots do not overlap.
pub before-slot : (s i j : ℕ) → i < j → i * s + s ≤ j * s
before-slot s i j h = grind arith

module _ {ℓ} {V : Type ℓ} (tv : TreeValue V) where
  -- The slot is all in the data.
  abbrev pub InData : ℕ → List ℕ → Type 0
  InData i xs = i * entry_size tv + entry_size tv ≤ length xs

  -- the entry in a slot
  abbrev pub slot : List ℕ → ℕ → Option (ℕ × V)
  slot xs i = read_entry tv (drop (i * entry_size tv) xs)

  -- the data with an entry put in a slot
  abbrev pub put : ℕ → ℕ → V → List ℕ → List ℕ
  put i key value xs =
      overwrite (i * entry_size tv + 8) (tv.serialize value)
        (overwrite (i * entry_size tv) (to_le 8 key) xs)

  abbrev pub fits_entry : ℕ × V → Bool
  fits_entry (key, value) = ltb key (256 ^ 8) && tv.fits value

  pub get_entry_lem :
      (i : ℕ) (n : TreeNode)
      → i < n.item_count
      → InData i n.data_area
      → get_entry tv i n ≡ some (slot n.data_area i)
  unfolding get_entry
  get_entry_lem i n h k =
      let a : leb n.item_count i ≡ false = ground arith in
      let b : ltb (length n.data_area) (i * entry_size tv) ≡ false = ground arith in rw (a, b) refl

  length-key :
      (i key : ℕ) (xs : List ℕ)
      → InData i xs
      → length (overwrite (i * entry_size tv) (to_le 8 key) xs) ≡ length xs
  length-key i key xs h =
      length-overwrite (i * entry_size tv) (to_le 8 key) xs (omega (arith, length-to_le 8 key))

  pub set_entry_lem :
      (i key : ℕ) (value : V) (n : TreeNode)
      → i ≤ n.item_count
      → InData i n.data_area
      → set_entry tv i key value n
        ≡ some (true, record n { data_area = put i key value n.data_area })
  unfolding set_entry
  set_entry_lem i key value n h k =
      let off = i * entry_size tv in
      let xs = n.data_area in
      let ys = overwrite off (to_le 8 key) xs in
      let a : ltb n.item_count i ≡ false = ground arith in
      let b = write_bytes_lem off (to_le 8 key) xs (omega (arith, length-to_le 8 key)) in
      let c =
        write_bytes_lem (off + 8) (tv.serialize value) ys
          (omega (arith, tv.length-serialize value, length-key i key xs k)) in
      rw (a, b, c) refl

  pub length-put :
      (i key : ℕ) (value : V) (xs : List ℕ) → InData i xs → length (put i key value xs) ≡ length xs
  length-put i key value xs h =
      let off = i * entry_size tv in
      let ys = overwrite off (to_le 8 key) xs in
      length-overwrite (off + 8) (tv.serialize value) ys
        (omega (arith, tv.length-serialize value, length-key i key xs h))
      ∙ length-key i key xs h

  -- Only the bytes of the slot are read.
  read_entry_local :
      (bs cs : List ℕ)
      → take (8 + tv.size) bs ≡ take (8 + tv.size) cs
      → read_entry tv bs ≡ read_entry tv cs
  unfolding read_entry
  read_entry_local bs cs e =
      let key = take-take 8 (8 + tv.size) bs cs (omega arith) e in
      let value = tv.deserialize_local (drop 8 bs) (drop 8 cs) (drop-take 8 tv.size bs cs e) in
      let long : ltb (length bs) 8 ≡ ltb (length cs) 8 =
        ground (arith, length-take 8 bs, length-take 8 cs, ap length key) in
      rw (long, key, value) refl

  read_entry_whole :
      (bs rest : List ℕ) (key : ℕ) (value : V)
      → take 8 bs ≡ to_le 8 key
      → drop 8 bs ≡ tv.serialize value ++ rest
      → fits_entry (key, value) ≡ true
      → read_entry tv bs ≡ some (key, value)
  unfolding read_entry
  read_entry_whole bs rest key value e d f =
      let long : ltb (length bs) 8 ≡ false =
        ground (arith, length-take 8 bs, ap length e, length-to_le 8 key) in
      let low : key < 256 ^ 8 = ground (arith, f) in
      let good : tv.fits value ≡ true = ground (arith, f) in
      rw (long, d, tv.deserialize-serialize value rest good, e, from_le-to_le 8 key low) refl

  -- What was put in a slot is read there.
  pub slot-put_self :
      (i key : ℕ) (value : V) (xs : List ℕ)
      → InData i xs
      → fits_entry (key, value) ≡ true
      → slot (put i key value xs) i ≡ some (key, value)
  slot-put_self i key value xs h f =
      let off = i * entry_size tv in
      let bs = to_le 8 key in
      let cs = tv.serialize value in
      let ys = overwrite off bs xs in
      let zs = put i key value xs in
      let long : off + 8 + length cs ≤ length ys =
        omega (arith, tv.length-serialize value, length-key i key xs h) in
      let key_there : take 8 (drop off zs) ≡ bs =
        take-overwrite_before (off + 8) off 8 cs ys (omega arith) (omega arith)
        ∙ ap (take 8) (drop-overwrite off bs xs (omega arith))
        ∙ refl in
      let value_there : drop 8 (drop off zs) ≡ cs ++ drop (off + 8 + length cs) ys =
        drop-drop 8 off zs ∙ drop-overwrite (off + 8) cs ys (omega arith) in
      read_entry_whole (drop off zs) (drop (off + 8 + length cs) ys) key value key_there value_there
        f

  -- No other slot changes.
  pub slot-put_ne :
      (i j key : ℕ) (value : V) (xs : List ℕ)
      → InData i xs
      → InData j xs
      → i ≢ j
      → slot (put i key value xs) j ≡ slot xs j
  slot-put_ne i j key value xs h k ne =
      let off = i * entry_size tv in
      let o = j * entry_size tv in
      let bs = to_le 8 key in
      let cs = tv.serialize value in
      let ys = overwrite off bs xs in
      let zs = put i key value xs in
      let ly = length-key i key xs h in
      let lc = tv.length-serialize value in
      elim (ℕ_order i j) [
        | inl low ↦
            let gap = before-slot (entry_size tv) i j low in
            ap (read_entry tv) (
              drop-overwrite_after (off + 8) o cs ys (omega arith) (omega arith)
              ∙ drop-overwrite_after off o bs xs (omega arith) (omega arith))
        | inr high ↦
            let gap = before-slot (entry_size tv) j i (omega arith) in
            read_entry_local (drop o zs) (drop o xs) (
              take-overwrite_before (off + 8) o (8 + tv.size) cs ys (omega arith) (omega arith)
              ∙ take-overwrite_before off o (8 + tv.size) bs xs (omega arith) (omega arith))
      ]
