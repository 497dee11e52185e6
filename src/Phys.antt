-- ===== src/Phys.antt =====
-- The physical page allocator of crates/core/mem/src/phys.rs: a bitmap of 4096 words, a bit for
-- each 4 KiB page (1 is free), with a count of free pages and a hint where to look next.
-- `usize` and `u64` are 64 bits wide. The lock round the one allocator is not modelled: each
-- operation runs whole.
pub mod Bitmap
pub mod Valid
pub mod Page
pub mod Free
pub mod Contiguous
pub mod Init
pub mod Owners
mod Tests
use watos.Common.{
  sub_u64, ℕ, zero, suc, ◌+◌, ◌-◌, ◌*◌, ◌/◌, ◌%◌, ◌^◌, min, bit_and, bit_or, List, Option, none,
  some, get_or, set, replicate, ltb, leb, ◌==◌, if◌then◌else◌, ◌||◌, Bool,
}
use watos.Common.Bits.{complement, trailing_zeros}

abbrev pub page_size : ℕ
page_size = 0x1000

abbrev pub max_pages : ℕ
max_pages = 1024 * 1024 * 1024 / page_size

abbrev pub bitmap_size : ℕ
bitmap_size = max_pages / 64

pub record PhysAllocator : Type 0 where
  pub bitmap : List ℕ
  pub total_pages : ℕ
  pub free_pages : ℕ
  pub next_free : ℕ

unfoldable pub new : PhysAllocator
new = record { bitmap = replicate bitmap_size 0; total_pages = 0; free_pages = 0; next_free = 0 }

-- `self.bitmap[word] |= 1 << bit`
unfoldable pub set_page : List ℕ → ℕ → List ℕ
set_page m page = set m (page / 64) (bit_or (get_or m (page / 64) 0) (2 ^ (page % 64)))

-- `self.bitmap[word] &= !(1 << bit)`
unfoldable pub clear_page : List ℕ → ℕ → List ℕ
clear_page m page =
    set m (page / 64) (bit_and (get_or m (page / 64) 0) (complement 64 (2 ^ (page % 64))))

-- `(self.bitmap[word] & (1 << bit)) == 0`
unfoldable pub page_used : List ℕ → ℕ → Bool
page_used m page = bit_and (get_or m (page / 64) 0) (2 ^ (page % 64)) == 0

-- the loop of `init`, with `n` rounds left, at `page`
unfoldable pub mark_free : ℕ → ℕ → List ℕ → List ℕ
mark_free zero page m = m
mark_free (suc n) page m =
    mark_free n (page + 1) (if ltb page max_pages then set_page m page else m)

unfoldable pub init : ℕ → ℕ → PhysAllocator → PhysAllocator
init start size a =
    let start_page = start / page_size in
    let num_pages = size / page_size in
    let total = min num_pages (sub_u64 max_pages start_page) in
    record {
      bitmap = mark_free num_pages start_page a.bitmap;
      total_pages = total;
      free_pages = total;
      next_free = start_page;
    }

-- what `alloc_page` does at the word `idx` that it has found to hold a free page
unfoldable pub take_from : ℕ → PhysAllocator → Option ℕ × PhysAllocator
take_from idx a =
    let word = get_or a.bitmap idx 0 in
    let bit = trailing_zeros 64 word in
    let page = idx * 64 + bit in
    (
      some (page * page_size),
      record a {
        bitmap = set a.bitmap idx (bit_and word (complement 64 (2 ^ bit)));
        free_pages = a.free_pages - 1;
        next_free = page + 1;
      },
    )

-- the loop of `alloc_page`, with `n` rounds left, at round `i`
unfoldable pub scan_words : ℕ → ℕ → PhysAllocator → Option ℕ × PhysAllocator
scan_words zero i a = (none, a)
scan_words (suc n) i a =
    let idx = (a.next_free / 64 + i) % bitmap_size in
    let rest = scan_words n (i + 1) a in
    if get_or a.bitmap idx 0 == 0 then rest else take_from idx a

unfoldable pub alloc_page : PhysAllocator → Option ℕ × PhysAllocator
alloc_page a = if a.free_pages == 0 then (none, a) else scan_words bitmap_size 0 a

unfoldable pub free_page : ℕ → PhysAllocator → PhysAllocator
free_page phys_addr a =
    let page = phys_addr / page_size in
    if leb max_pages page
    then a
    else if page_used a.bitmap page
    then record a {
      bitmap = set_page a.bitmap page;
      free_pages = a.free_pages + 1;
      next_free = if ltb page a.next_free then page else a.next_free;
    }
    else a

-- the inner loop of `alloc_contiguous`: `n` pages from `p` on become used
unfoldable pub mark_used : ℕ → ℕ → List ℕ → List ℕ
mark_used zero p m = m
mark_used (suc n) p m = mark_used n (p + 1) (clear_page m p)

-- the outer loop, with `n` rounds left, at `page`
unfoldable pub scan_runs : ℕ → ℕ → ℕ → ℕ → ℕ → PhysAllocator → Option ℕ × PhysAllocator
scan_runs count zero page run_start run_length a = (none, a)
scan_runs count (suc n) page run_start run_length a =
    let used = page_used a.bitmap page in
    let start = if run_length == 0 then page else run_start in
    let reset = scan_runs count n (page + 1) run_start 0 a in
    let further = scan_runs count n (page + 1) start (run_length + 1) a in
    if used
    then reset
    else if run_length + 1 == count
    then (
      some (start * page_size),
      record a { bitmap = mark_used count start a.bitmap; free_pages = a.free_pages - count },
    )
    else further

unfoldable pub alloc_contiguous : ℕ → PhysAllocator → Option ℕ × PhysAllocator
alloc_contiguous count a =
    if count == 0 || ltb a.free_pages count then (none, a) else scan_runs count max_pages 0 0 0 a

pub record PhysStats : Type 0 where
  pub total_pages : ℕ
  pub free_pages : ℕ
  pub used_pages : ℕ

unfoldable pub stats : PhysAllocator → PhysStats
stats a = record {
  total_pages = a.total_pages;
  free_pages = a.free_pages;
  used_pages = sub_u64 a.total_pages a.free_pages;
}

unfoldable pub total_bytes : PhysStats → ℕ
total_bytes s = s.total_pages * page_size

unfoldable pub free_bytes : PhysStats → ℕ
free_bytes s = s.free_pages * page_size

unfoldable pub used_bytes : PhysStats → ℕ
used_bytes s = s.used_pages * page_size
