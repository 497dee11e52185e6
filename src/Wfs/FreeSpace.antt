-- ===== src/Wfs/FreeSpace.antt =====
-- crates/storage/wfs/src/core/freespace.rs: ranges of free disk blocks. All fields are `u64`.
pub mod Blocks
mod Tests
use watos.Common.{
  ℕ, zero, suc, ◌+◌, ◌-◌, ◌*◌, ◌/◌, ◌%◌, ◌^◌, ◌≤◌, ◌<◌, min, max, bit_and, bit_or, ◌≡◌, refl, sym,
  ap, ◌∙◌, ◌≢◌, ◌↔◌, ◌⊎◌, inl, inr, Bool, true, false, ◌&&◌, ◌||◌, not, Option, none, some, List,
  [], ◌∷◌, ◌++◌, map, append-nil, append_assoc, arith, ltb, leb, ◌==◌, if◌then◌else◌, ltb→lt,
  ==_iff, Bool-cases, Option-cases, length, get_elem?, get_or, set, take, drop, replicate,
  length-append, length-set, length-replicate, length-take, length-drop, take-append-drop,
  get_or-set_self, get_or-set_ne, get_or-replicate, set-out, sub_u64, add_u64,
}

abbrev pub block_size : ℕ
block_size = 4096

pub record FreeRange : Type 0 where
  pub start_block : ℕ
  pub block_count : ℕ
  pub freed_generation : ℕ

unfoldable pub new : ℕ → ℕ → FreeRange
new start_block block_count = record {
  start_block = start_block;
  block_count = block_count;
  freed_generation = 0;
}

unfoldable pub end_block : FreeRange → ℕ
end_block r = add_u64 r.start_block r.block_count

unfoldable pub size_bytes : FreeRange → ℕ
size_bytes r = r.block_count * block_size % 2 ^ 64

unfoldable pub can_allocate : FreeRange → ℕ → Bool
can_allocate r blocks_needed = leb blocks_needed r.block_count

unfoldable pub is_adjacent : FreeRange → FreeRange → Bool
unfolding end_block
is_adjacent r other = end_block r == other.start_block || end_block other == r.start_block

unfoldable pub merge : FreeRange → FreeRange → Option FreeRange
unfolding end_block
merge r other =
    if end_block r == other.start_block
    then some (record {
      start_block = r.start_block;
      block_count = add_u64 r.block_count other.block_count;
      freed_generation = max r.freed_generation other.freed_generation;
    })
    else if end_block other == r.start_block
    then some (record {
      start_block = other.start_block;
      block_count = add_u64 r.block_count other.block_count;
      freed_generation = max r.freed_generation other.freed_generation;
    })
    else none

unfoldable pub allocate : FreeRange → ℕ → Option (ℕ × Option FreeRange)
allocate r blocks_needed =
    if ltb r.block_count blocks_needed
    then none
    else if r.block_count == blocks_needed
    then some (r.start_block, none)
    else some (
      r.start_block,
      some (record {
        start_block = add_u64 r.start_block blocks_needed;
        block_count = sub_u64 r.block_count blocks_needed;
        freed_generation = r.freed_generation;
      }),
    )

-- the part before the allocation, if there is one, and the part after it
unfoldable pub left_portion : FreeRange → ℕ → List FreeRange
left_portion r offset =
    if ltb r.start_block offset
    then record {
      start_block = r.start_block;
      block_count = sub_u64 offset r.start_block;
      freed_generation = r.freed_generation;
    }
      ∷ []
    else []

unfoldable pub right_portion : FreeRange → ℕ → List FreeRange
unfolding end_block
right_portion r alloc_end =
    if ltb alloc_end (end_block r)
    then record {
      start_block = alloc_end;
      block_count = sub_u64 (end_block r) alloc_end;
      freed_generation = r.freed_generation;
    }
      ∷ []
    else []

unfoldable pub allocate_at : FreeRange → ℕ → ℕ → Option (ℕ × List FreeRange)
unfolding end_block left_portion right_portion
allocate_at r offset blocks_needed =
    let alloc_end = add_u64 offset blocks_needed in
    if ltb offset r.start_block || ltb (end_block r) alloc_end
    then none
    else some (offset, left_portion r offset ++ right_portion r alloc_end)

-- A range freed by a transaction, kept until the commit.
pub record PendingFree : Type 0 where
  pub block : ℕ
  pub count : ℕ
  pub transaction_id : ℕ

unfoldable pub to_range : PendingFree → FreeRange
unfolding new
to_range p = new p.block p.count
