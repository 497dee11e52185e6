-- ===== src/Wfs/Extent/Tests.antt =====
-- The theorems on extents at an extent of three blocks and a half.
use watos.Common.{ℕ, ◌+◌, ◌≡◌, refl, false, some, arith, ltb, if◌then◌else◌}
use watos.Wfs.Extent.{
  Extent, is_hole, is_shared, offset_to_block, split_at, merge_with, can_merge_with,
}
use watos.Wfs.Extent.Mapping.{Fits}
use watos.Wfs.Extent.Split.{split_at-keeps, split_at-shifts}
use watos.Wfs.Extent.Merge.{merge_with-keeps, merge_with-shifts, merge_with-split_at}
use watos.Wfs.Extent.Sharing.{IsCounted}

abbrev whole : Extent
whole = record {
  file_offset = 8192;
  disk_block = 100;
  length = 14336;
  flags = 0;
  refcount = 1;
  crc32 = 9;
  generation = 2;
}

abbrev first_block : Extent
first_block = record whole { length = 4096; crc32 = 0 }

abbrev other_blocks : Extent
other_blocks = record whole { file_offset = 12288; disk_block = 101; length = 10240; crc32 = 0 }

abbrev ragged_left : Extent
ragged_left = record whole { length = 5000; crc32 = 0 }

abbrev ragged_right : Extent
ragged_right = record whole { file_offset = 13192; disk_block = 102; length = 9336; crc32 = 0 }

whole-Fits : Fits whole
whole-Fits = omega arith

split_at-whole : split_at whole 12288 ≡ some (first_block, other_blocks)
unfolding split_at is_hole
split_at-whole = refl

split_at-ragged : split_at whole 13192 ≡ some (ragged_left, ragged_right)
unfolding split_at is_hole
split_at-ragged = refl

whole-solid : (is_hole whole ≡ false) × (is_shared whole ≡ false)
unfolding is_hole is_shared
whole-solid = (refl, refl)

block_of_whole : offset_to_block whole 13192 ≡ some 101
unfolding offset_to_block is_hole
block_of_whole = refl

split_at-keeps_example : offset_to_block whole 12300 ≡ (
    if ltb 12300 12288
    then offset_to_block first_block 12300
    else offset_to_block other_blocks 12300)
split_at-keeps_example = split_at-keeps whole 12288 whole-Fits refl split_at-whole 12300

split_at-shifts_example :
    (b : ℕ) × (offset_to_block whole 13192 ≡ some b)
    × (offset_to_block ragged_right 13192 ≡ some (b + 1))
split_at-shifts_example =
    split_at-shifts whole 13192 whole-Fits whole-solid.0 (omega arith) split_at-ragged

merge_with-blocks : merge_with first_block other_blocks ≡ some (record whole { crc32 = 0 })
merge_with-blocks =
    merge_with-split_at whole 12288 whole-Fits refl whole-solid.1 refl split_at-whole

merge_with-keeps_example : offset_to_block (record whole { crc32 = 0 }) 12300 ≡ (
    if ltb 12300 12288
    then offset_to_block first_block 12300
    else offset_to_block other_blocks 12300)
merge_with-keeps_example =
    merge_with-keeps first_block other_blocks (omega arith) (omega arith) (omega arith) refl
      merge_with-blocks 12300

-- Its last block is not full, and its disk range ends where `next_extent` begins.
abbrev next_extent : Extent
next_extent = record whole { file_offset = 22528; disk_block = 104; length = 4096 }

abbrev both : Extent
both = record whole { length = 18432; crc32 = 0 }

merge_with-both : merge_with whole next_extent ≡ some both
unfolding merge_with can_merge_with is_hole is_shared
merge_with-both = refl

merge_with-shifts_example :
    (b : ℕ) × (offset_to_block both 22528 ≡ some b)
    × (offset_to_block next_extent 22528 ≡ some (b + 1))
merge_with-shifts_example =
    merge_with-shifts whole next_extent whole-Fits (omega arith) (omega arith) whole-solid.0
      (omega arith) (omega arith) merge_with-both

whole-IsCounted : IsCounted whole
whole-IsCounted = record { flagged = refl; flags_fit = omega arith; refcount_fits = omega arith }
