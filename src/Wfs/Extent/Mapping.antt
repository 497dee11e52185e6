-- ===== src/Wfs/Extent/Mapping.antt =====
-- Where the bytes of an extent lie on the disk.
use watos.Common.{
  ℕ, ◌+◌, ◌-◌, ◌/◌, ◌^◌, ◌≤◌, ◌<◌, ◌≡◌, Bool, ◌&&◌, not, Option, none, some, arith, ltb, leb,
  if◌then◌else◌,
}
use watos.Wfs.FreeSpace.{block_size}
use watos.Wfs.Extent.{Extent, is_hole, offset_to_block, block_count, disk_end}

-- The sums that the code makes of the fields fit 64 bits.
pub record Fits (e : Extent) : Type 0 where
  pub file : e.file_offset + e.length + block_size < 2 ^ 64
  pub disk : e.disk_block + e.length < 2 ^ 64

-- The file offset lies in the extent.
abbrev pub in_file : Extent → ℕ → Bool
in_file e off = leb e.file_offset off && ltb off (e.file_offset + e.length)

-- The block that holds a byte: a hole has none.
abbrev pub block_at : Extent → ℕ → Option ℕ
block_at e off =
    if in_file e off && not (is_hole e)
    then some (e.disk_block + (off - e.file_offset) / block_size)
    else none

-- In an extent whose ends fit 64 bits, `offset_to_block` gives the block that holds the byte, and
-- none outside the extent or in a hole.
pub offset_to_block-eq-block_at :
    (e : Extent) (off : ℕ) → Fits e → offset_to_block e off ≡ block_at e off
unfolding offset_to_block
offset_to_block-eq-block_at e off v = ground arith

-- In an extent whose ends fit 64 bits, a block that `offset_to_block` gives lies in the extent's
-- range on the disk.
pub offset_to_block-range :
    (e : Extent) (off : ℕ) {b : ℕ}
    → Fits e
    → offset_to_block e off ≡ some b
    → (e.disk_block ≤ b) × (b < disk_end e)
unfolding offset_to_block disk_end block_count
offset_to_block-range e off v h = ground arith

pub disk_end_lem :
    (e : Extent) → Fits e → disk_end e ≡ e.disk_block + (e.length + (block_size - 1)) / block_size
unfolding disk_end block_count
disk_end_lem e v = omega arith
