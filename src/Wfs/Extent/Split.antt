-- ===== src/Wfs/Extent/Split.antt =====
-- Splitting an extent: which bytes the parts hold, and where those lie on the disk.
use watos.Common.{
  ℕ, ◌+◌, ◌-◌, ◌/◌, ◌%◌, ◌<◌, ◌≡◌, refl, ◌≢◌, inl, inr, false, ◌&&◌, none, some, arith, ltb,
  if◌then◌else◌, Bool-cases,
}
use watos.Wfs.FreeSpace.{block_size}
use watos.Wfs.Extent.{Extent, is_hole, offset_to_block, split_at}
use watos.Wfs.Extent.Mapping.{Fits, block_at, offset_to_block-eq-block_at}

-- The parts of a split at `s`: they meet at `s`, hold the bytes of the extent, and keep its flags,
-- references and generation.
pub record Parts (e : Extent) (s : ℕ) (left right : Extent) : Type 0 where
  pub left_start : left.file_offset ≡ e.file_offset
  pub left_end : left.file_offset + left.length ≡ s
  pub right_start : right.file_offset ≡ s
  pub lengths : left.length + right.length ≡ e.length
  pub flags : (left.flags ≡ e.flags) × (right.flags ≡ e.flags)
  pub refcounts : (left.refcount ≡ e.refcount) × (right.refcount ≡ e.refcount)
  pub generations : (left.generation ≡ e.generation) × (right.generation ≡ e.generation)
  pub fit : Fits left × Fits right

-- where the right part starts on the disk
abbrev pub right_block : Extent → ℕ → ℕ
right_block e s =
    if is_hole e then 0 else e.disk_block + (s - e.file_offset + (block_size - 1)) / block_size

abbrev pub left_of : Extent → ℕ → Extent
left_of e s = record e { length = s - e.file_offset; crc32 = 0 }

abbrev pub right_of : Extent → ℕ → Extent
right_of e s = record e {
  file_offset = s;
  disk_block = right_block e s;
  length = e.length - (s - e.file_offset);
  crc32 = 0;
}

module _ (e : Extent) (s : ℕ) (v : Fits e) where
  split_at-inside :
      e.file_offset < s
      → s < e.file_offset + e.length
      → split_at e s ≡ some (left_of e s, right_of e s)
  unfolding split_at
  split_at-inside h k = ground arith

  -- Outside the extent, or at its ends, there is no split.
  pub split_at-outside :
      (ltb e.file_offset s && ltb s (e.file_offset + e.length)) ≡ false → split_at e s ≡ none
  unfolding split_at
  split_at-outside h = ground arith

  pub left-Fits : e.file_offset < s → s < e.file_offset + e.length → Fits (left_of e s)
  left-Fits h k = record { file = omega (arith, v.file); disk = omega (arith, v.disk) }

  pub right-Fits : e.file_offset < s → s < e.file_offset + e.length → Fits (right_of e s)
  right-Fits h k = record { file = omega (arith, v.file); disk = ground (arith, v.disk) }

-- A split strictly inside an extent whose ends fit 64 bits succeeds and gives two parts that meet
-- at the split and make the extent up.
pub split_at-Parts :
    (e : Extent) (s : ℕ)
    → Fits e
    → e.file_offset < s
    → s < e.file_offset + e.length
    → (left : Extent) × (right : Extent) × (split_at e s ≡ some (left, right))
      × Parts e s left right
split_at-Parts e s v h k = (
  left_of e s,
  right_of e s,
  split_at-inside e s v h k,
  record {
    left_start = refl;
    left_end = omega arith;
    right_start = refl;
    lengths = omega arith;
    flags = (refl, refl);
    refcounts = (refl, refl);
    generations = (refl, refl);
    fit = (left-Fits e s v h k, right-Fits e s v h k);
  },
)

-- What a successful split was given and gave.
pub split_at-some :
    (e : Extent) (s : ℕ) (left right : Extent)
    → Fits e
    → split_at e s ≡ some (left, right)
    → (e.file_offset < s)
      × (s < e.file_offset + e.length)
      × (left ≡ left_of e s)
      × (right ≡ right_of e s)
split_at-some e s left right v h =
    elim (Bool-cases (ltb e.file_offset s && ltb s (e.file_offset + e.length))) [
      | inr outside ↦ absurd (cc (h, split_at-outside e s v outside))
      | inl inside ↦
          let low : e.file_offset < s = ground arith in
          let high : s < e.file_offset + e.length = ground arith in
          let given = split_at-inside e s v low high in (low, high, cc (h, given), cc (h, given))
    ]

block_at-split :
    (e : Extent) (s off : ℕ)
    → Fits e
    → (s - e.file_offset) % block_size ≡ 0
    → e.file_offset < s
    → s < e.file_offset + e.length
    → block_at e off
      ≡ (if ltb off s then block_at (left_of e s) off else block_at (right_of e s) off)
unfolding is_hole
block_at-split e s off v aligned low high = ground arith

-- Where an extent whose ends fit 64 bits is split at a whole number of blocks from its start,
-- every byte keeps its place on the disk: the part that holds the byte maps it to the block that
-- the extent mapped it to.
pub split_at-keeps :
    (e : Extent) (s : ℕ) {left right : Extent}
    → Fits e
    → (s - e.file_offset) % block_size ≡ 0
    → split_at e s ≡ some (left, right)
    → (off : ℕ)
    → offset_to_block e off
      ≡ (if ltb off s then offset_to_block left off else offset_to_block right off)
split_at-keeps e s {left} {right} v aligned h off =
    let (low, high, is_left, is_right) = split_at-some e s left right v h in
    rw
      (
        is_left,
        is_right,
        offset_to_block-eq-block_at e off v,
        offset_to_block-eq-block_at (left_of e s) off (left-Fits e s v low high),
        offset_to_block-eq-block_at (right_of e s) off (right-Fits e s v low high),
      )
      (block_at-split e s off v aligned low high)

block_at-shift :
    (e : Extent) (s : ℕ)
    → is_hole e ≡ false
    → (s - e.file_offset) % block_size ≢ 0
    → e.file_offset < s
    → s < e.file_offset + e.length
    → block_at (right_of e s) s ≡ some (e.disk_block + (s - e.file_offset) / block_size + 1)
unfolding is_hole
block_at-shift e s solid ragged low high = ground arith

-- Where an extent whose ends fit 64 bits, and which is no hole, is split, but not at a whole
-- number of blocks from its start, the first byte of the right part is mapped to the block after
-- the one that the extent mapped it to.
pub split_at-shifts :
    (e : Extent) (s : ℕ) {left right : Extent}
    → Fits e
    → is_hole e ≡ false
    → (s - e.file_offset) % block_size ≢ 0
    → split_at e s ≡ some (left, right)
    → (b : ℕ) × (offset_to_block e s ≡ some b) × (offset_to_block right s ≡ some (b + 1))
split_at-shifts e s {left} {right} v solid ragged h =
    let (low, high, is_left, is_right) = split_at-some e s left right v h in
    (
      e.disk_block + (s - e.file_offset) / block_size,
      rw (offset_to_block-eq-block_at e s v) (ground arith),
      rw (is_right, offset_to_block-eq-block_at (right_of e s) s (right-Fits e s v low high))
          (block_at-shift e s solid ragged low high),
    )
