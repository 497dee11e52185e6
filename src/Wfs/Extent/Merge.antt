-- ===== src/Wfs/Extent/Merge.antt =====
-- Merging extents: what the merged one maps, and that it undoes a split.
use watos.Common.{
  ℕ, ◌+◌, ◌-◌, ◌/◌, ◌%◌, ◌^◌, ◌<◌, max, ◌≡◌, refl, sym, ◌≢◌, inl, inr, Bool, true, false, ◌&&◌,
  ◌||◌, not, some, arith, ltb, ◌==◌, if◌then◌else◌, Bool-cases,
}
use watos.Wfs.FreeSpace.{block_size}
use watos.Wfs.Extent.{
  Extent, is_hole, is_shared, offset_to_block, split_at, disk_end, can_merge_with, merge_with,
  differ,
}
use watos.Wfs.Extent.Mapping.{Fits, block_at, offset_to_block-eq-block_at, disk_end_lem}
use watos.Wfs.Extent.Split.{left_of, right_of, split_at-some, left-Fits, right-Fits}

-- What `can_merge_with` demands.
pub record Adjacent (e other : Extent) : Type 0 where
  pub kinds : is_hole e ≡ is_hole other
  pub exclusive : (is_shared e || is_shared other) ≡ false
  pub in_file : e.file_offset + e.length ≡ other.file_offset
  pub on_disk : (not (is_hole e) && not (disk_end e == other.disk_block)) ≡ false

abbrev merged : Extent → Extent → Extent
merged e other = record {
  file_offset = e.file_offset;
  disk_block = e.disk_block;
  length = e.length + other.length;
  flags = e.flags;
  refcount = 1;
  crc32 = 0;
  generation = max e.generation other.generation;
}

same_kind : (a b : Bool) → differ a b ≡ false → a ≡ b
same_kind true true h = refl
same_kind true false h = cc
same_kind false b h = sym h

-- Extents merge exactly where they are adjacent, in the file and, unless they are holes, on the disk,
-- of one kind, and not shared.
pub can_merge_with-Adjacent :
    (e other : Extent) → Fits e → can_merge_with e other ≡ true → Adjacent e other
unfolding can_merge_with
can_merge_with-Adjacent e other v h = record {
  kinds = same_kind (is_hole e) (is_hole other) (ground arith);
  exclusive = ground arith;
  in_file = ground (arith, v.file);
  on_disk = ground arith;
}

pub Adjacent-can_merge_with :
    (e other : Extent) → Fits e → Adjacent e other → can_merge_with e other ≡ true
unfolding can_merge_with
Adjacent-can_merge_with e other v a =
    ground (arith, a.kinds, a.exclusive, a.in_file, a.on_disk, v.file)

merge_with-some :
    (e other m : Extent)
    → Fits e
    → Fits other
    → merge_with e other ≡ some m
    → Adjacent e other × (m ≡ merged e other)
unfolding merge_with
merge_with-some e other m v w h = elim (Bool-cases (can_merge_with e other)) [
  | inr apart ↦ absurd (ground arith)
  | inl fits ↦
      let a = can_merge_with-Adjacent e other v fits in
      (a, ground (arith, a.in_file, w.file, v.file))
]

block_at-merged :
    (e other : Extent) (off : ℕ)
    → Fits e
    → Adjacent e other
    → e.length % block_size ≡ 0
    → block_at (merged e other) off
      ≡ (if ltb off other.file_offset then block_at e off else block_at other off)
unfolding is_hole
block_at-merged e other off v a aligned =
    ground (arith, a.kinds, a.in_file, a.on_disk, disk_end_lem e v)

-- Where two extents merge, their ends and the blocks of both fit 64 bits, and the first is a whole
-- number of blocks long, every byte keeps its place on the disk.
pub merge_with-keeps :
    (e other : Extent) {m : Extent}
    → Fits e
    → Fits other
    → e.disk_block + e.length + other.length < 2 ^ 64
    → e.length % block_size ≡ 0
    → merge_with e other ≡ some m
    → (off : ℕ)
    → offset_to_block m off
      ≡ (if ltb off other.file_offset then offset_to_block e off else offset_to_block other off)
merge_with-keeps e other {m} v w room aligned h off =
    let (a, is_m) = merge_with-some e other m v w h in
    let fits : Fits (merged e other) = omega (arith, v.file, w.file, a.in_file) in
    rw
      (
        is_m,
        offset_to_block-eq-block_at (merged e other) off fits,
        offset_to_block-eq-block_at e off v,
        offset_to_block-eq-block_at other off w,
      )
      (block_at-merged e other off v a aligned)

merged_first :
    (e other : Extent)
    → Fits e
    → Adjacent e other
    → is_hole e ≡ false
    → 0 < other.length
    → block_at (merged e other) other.file_offset ≡ some (e.disk_block + e.length / block_size)
unfolding is_hole
merged_first e other v a solid pos = ground (arith, a.in_file)

other_first :
    (e other : Extent)
    → Fits e
    → Adjacent e other
    → is_hole e ≡ false
    → e.length % block_size ≢ 0
    → 0 < other.length
    → block_at other other.file_offset ≡ some (e.disk_block + e.length / block_size + 1)
other_first e other v a solid ragged pos =
    let next : disk_end e ≡ other.disk_block = ground (arith, a.on_disk) in
    ground (arith, next, a.kinds, disk_end_lem e v)

-- Where two extents merge, their ends and the blocks of both fit 64 bits, the first is no hole and
-- is not a whole number of blocks long, and the second is not empty, the first byte of the second
-- is mapped to the block before the one that the second extent mapped it to.
pub merge_with-shifts :
    (e other : Extent) {m : Extent}
    → Fits e
    → Fits other
    → e.disk_block + e.length + other.length < 2 ^ 64
    → is_hole e ≡ false
    → e.length % block_size ≢ 0
    → 0 < other.length
    → merge_with e other ≡ some m
    → (b : ℕ) × (offset_to_block m other.file_offset ≡ some b)
      × (offset_to_block other other.file_offset ≡ some (b + 1))
merge_with-shifts e other {m} v w room solid ragged pos h =
    let (a, is_m) = merge_with-some e other m v w h in
    let fits : Fits (merged e other) = omega (arith, v.file, w.file, a.in_file) in
    (
      e.disk_block + e.length / block_size,
      rw (is_m, offset_to_block-eq-block_at (merged e other) other.file_offset fits)
          (merged_first e other v a solid pos),
      rw (offset_to_block-eq-block_at other other.file_offset w)
          (other_first e other v a solid ragged pos),
    )

merge_with-merged :
    (e other : Extent)
    → Fits e
    → Fits other
    → Adjacent e other
    → merge_with e other ≡ some (merged e other)
unfolding merge_with
merge_with-merged e other v w a =
    ground (arith, Adjacent-can_merge_with e other v a, a.in_file, v.file, w.file)

-- The parts of an exclusive extent stay exclusive and of one kind.
parts-Adjacent :
    (e : Extent) (s : ℕ)
    → Fits e
    → is_shared e ≡ false
    → (s - e.file_offset) % block_size ≡ 0
    → e.file_offset < s
    → s < e.file_offset + e.length
    → Adjacent (left_of e s) (right_of e s)
unfolding is_hole is_shared
parts-Adjacent e s v exclusive aligned low high = record {
  kinds = refl;
  exclusive = ground arith;
  in_file = omega arith;
  on_disk = ground (arith, disk_end_lem (left_of e s) (left-Fits e s v low high));
}

merge_parts :
    (e : Extent) (s : ℕ)
    → Fits e
    → e.refcount ≡ 1
    → is_shared e ≡ false
    → (s - e.file_offset) % block_size ≡ 0
    → e.file_offset < s
    → s < e.file_offset + e.length
    → merge_with (left_of e s) (right_of e s) ≡ some (record e { crc32 = 0 })
merge_parts e s v one exclusive aligned low high =
    let given =
      merge_with-merged (left_of e s) (right_of e s) (left-Fits e s v low high)
        (right-Fits e s v low high) (parts-Adjacent e s v exclusive aligned low high) in
    ground (arith, given)

-- An extent whose ends fit 64 bits, with one reference and without the shared flag, split at a
-- whole number of blocks from its start, merges again to what it was, its checksum cleared.
pub merge_with-split_at :
    (e : Extent) (s : ℕ) {left right : Extent}
    → Fits e
    → e.refcount ≡ 1
    → is_shared e ≡ false
    → (s - e.file_offset) % block_size ≡ 0
    → split_at e s ≡ some (left, right)
    → merge_with left right ≡ some (record e { crc32 = 0 })
merge_with-split_at e s {left} {right} v one exclusive aligned h =
    let (low, high, is_left, is_right) = split_at-some e s left right v h in
    rw (is_left, is_right) (merge_parts e s v one exclusive aligned low high)
