-- ===== src/Wfs/FreeSpace/Tests.antt =====
-- The theorems on ranges at the range of blocks 100 to 149.
use watos.Common.{
  ℕ, ◌+◌, ◌≡◌, refl, ◌⊎◌, false, ◌&&◌, ◌||◌, Option, none, some, List, [], ◌∷◌, arith, leb, true,
}
use watos.Wfs.FreeSpace.{FreeRange, merge, allocate, allocate_at, is_adjacent, can_allocate}
use watos.Wfs.FreeSpace.Blocks.{
  Splits, listed, covers, allocate-Splits, allocate_at-Splits, merge-covers,
}

abbrev range : FreeRange
range = record { start_block = 100; block_count = 50; freed_generation = 3 }

abbrev rest_of_range : FreeRange
rest_of_range = record { start_block = 120; block_count = 30; freed_generation = 3 }

allocate-range : allocate range 20 ≡ some (100, some rest_of_range)
unfolding allocate
allocate-range = refl

allocate_at-range :
    allocate_at range 110 20
    ≡ some (
      110,
      record { start_block = 100; block_count = 10; freed_generation = 3 }
          ∷ record { start_block = 130; block_count = 20; freed_generation = 3 }
          ∷ [],
    )
unfolding allocate_at
allocate_at-range = refl

allocate-Splits_example :
    ((allocate range 20 ≡ none) × (can_allocate range 20 ≡ false))
    ⊎ ((rest : Option FreeRange) × (allocate range 20 ≡ some (100, rest))
        × (can_allocate range 20 ≡ true)
        × Splits range 100 20 (listed rest))
allocate-Splits_example = allocate-Splits range 20 (omega arith)

allocate_at-Splits_example :
    ((allocate_at range 110 20 ≡ none) × ((leb 100 110 && leb (110 + 20) (100 + 50)) ≡ false))
    ⊎ ((rest : List FreeRange) × (allocate_at range 110 20 ≡ some (110, rest))
        × Splits range 110 20 rest)
allocate_at-Splits_example = allocate_at-Splits range 110 20 (omega arith) (omega arith)

abbrev next_range : FreeRange
next_range = record { start_block = 150; block_count = 6; freed_generation = 0 }

merge-covers_example :
    ((merge range next_range ≡ none) × (is_adjacent range next_range ≡ false))
    ⊎ ((m : FreeRange) × (merge range next_range ≡ some m)
        × (is_adjacent range next_range ≡ true)
        × ((b : ℕ) → covers m b ≡ (covers range b || covers next_range b))
        × (m.block_count ≡ 50 + 6))
merge-covers_example = merge-covers range next_range (omega arith) (omega arith)
