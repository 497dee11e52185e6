-- ===== src/Wfs/Extent.antt =====
-- crates/storage/wfs/src/core/extent.rs: extents, which map a range of a file's bytes to disk blocks.
-- `flags`, `refcount`, `crc32` and `generation` are `u32`, the other fields `u64`.
pub mod Mapping
pub mod Split
pub mod Merge
pub mod Sharing
mod Tests
use watos.Common.{
  ℕ, zero, suc, ◌+◌, ◌-◌, ◌*◌, ◌/◌, ◌%◌, ◌^◌, ◌≤◌, ◌<◌, min, max, bit_and, bit_or, ◌≡◌, refl, sym,
  ap, ◌∙◌, ◌≢◌, ◌↔◌, ◌⊎◌, inl, inr, Bool, true, false, ◌&&◌, ◌||◌, not, Option, none, some, List,
  [], ◌∷◌, ◌++◌, map, append-nil, append_assoc, arith, ltb, leb, ◌==◌, if◌then◌else◌, ltb→lt,
  ==_iff, Bool-cases, Option-cases, length, get_elem?, get_or, set, take, drop, replicate,
  length-append, length-set, length-replicate, length-take, length-drop, take-append-drop,
  get_or-set_self, get_or-set_ne, get_or-replicate, set-out, sub_u64, add_u64,
}
use watos.Common.Bits.{complement}
use watos.Wfs.FreeSpace.{block_size}

abbrev pub default_chunk_size : ℕ
default_chunk_size = 65536

abbrev pub extent_shared : ℕ
extent_shared = 0x0001

abbrev pub extent_hole : ℕ
extent_hole = 0x0008

pub record Extent : Type 0 where
  pub file_offset : ℕ
  pub disk_block : ℕ
  pub length : ℕ
  pub flags : ℕ
  pub refcount : ℕ
  pub crc32 : ℕ
  pub generation : ℕ

unfoldable pub new : ℕ → ℕ → ℕ → Extent
new file_offset disk_block length = record {
  file_offset = file_offset;
  disk_block = disk_block;
  length = length;
  flags = 0;
  refcount = 1;
  crc32 = 0;
  generation = 0;
}

unfoldable pub hole : ℕ → ℕ → Extent
hole file_offset length = record {
  file_offset = file_offset;
  disk_block = 0;
  length = length;
  flags = extent_hole;
  refcount = 0;
  crc32 = 0;
  generation = 0;
}

unfoldable pub is_hole : Extent → Bool
is_hole e = not (bit_and e.flags extent_hole == 0)

unfoldable pub is_shared : Extent → Bool
is_shared e = ltb 1 e.refcount || not (bit_and e.flags extent_shared == 0)

-- `(n + size - 1) / size`
abbrev pub round_up : ℕ → ℕ → ℕ
round_up n size = sub_u64 (add_u64 n size) 1 / size

unfoldable pub block_count : Extent → ℕ
block_count e = round_up e.length block_size

unfoldable pub chunk_count : Extent → ℕ
chunk_count e = round_up e.length default_chunk_size

unfoldable pub file_end : Extent → ℕ
file_end e = add_u64 e.file_offset e.length

unfoldable pub disk_end : Extent → ℕ
unfolding block_count
disk_end e = add_u64 e.disk_block (block_count e)

unfoldable pub contains_offset : Extent → ℕ → Bool
unfolding file_end
contains_offset e offset = leb e.file_offset offset && ltb offset (file_end e)

unfoldable pub offset_to_block : Extent → ℕ → Option ℕ
unfolding contains_offset
offset_to_block e file_off =
    if not (contains_offset e file_off)
    then none
    else if is_hole e
    then none
    else some (add_u64 e.disk_block (sub_u64 file_off e.file_offset / block_size))

unfoldable pub split_at : Extent → ℕ → Option (Extent × Extent)
unfolding file_end
split_at e split_offset =
    let left_length = sub_u64 split_offset e.file_offset in
    let right_length = sub_u64 e.length left_length in
    let left_blocks = round_up left_length block_size in
    if leb split_offset e.file_offset || leb (file_end e) split_offset
    then none
    else some (
      record e { length = left_length; crc32 = 0 },
      record e {
        file_offset = split_offset;
        disk_block = if is_hole e then 0 else add_u64 e.disk_block left_blocks;
        length = right_length;
        crc32 = 0;
      },
    )

abbrev pub u32_max : ℕ
u32_max = 2 ^ 32 - 1

unfoldable pub inc_refcount : Extent → Extent
inc_refcount e =
    let refcount = min (e.refcount + 1) u32_max in
    record e {
      refcount = refcount;
      flags = if ltb 1 refcount then bit_or e.flags extent_shared else e.flags;
    }

unfoldable pub dec_refcount : Extent → ℕ × Extent
dec_refcount e =
    let refcount = e.refcount - 1 in
    (
      refcount,
      record e {
        refcount = refcount;
        flags = if leb refcount 1 then bit_and e.flags (complement 32 extent_shared) else e.flags;
      },
    )

-- `is_hole() != other.is_hole()`
abbrev pub differ : Bool → Bool → Bool
differ true b = not b
differ false b = b

unfoldable pub can_merge_with : Extent → Extent → Bool
unfolding file_end disk_end
can_merge_with e other =
    if differ (is_hole e) (is_hole other)
    then false
    else if is_shared e || is_shared other
    then false
    else if not (file_end e == other.file_offset)
    then false
    else if not (is_hole e) && not (disk_end e == other.disk_block)
    then false
    else true

unfoldable pub merge_with : Extent → Extent → Option Extent
merge_with e other =
    if not (can_merge_with e other)
    then none
    else some (record {
      file_offset = e.file_offset;
      disk_block = e.disk_block;
      length = add_u64 e.length other.length;
      flags = e.flags;
      refcount = 1;
      crc32 = 0;
      generation = max e.generation other.generation;
    })
