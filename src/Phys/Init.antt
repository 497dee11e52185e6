-- ===== src/Phys/Init.antt =====
-- `init` on the new allocator: which pages become free, and what the count says.
use watos.Common.{
  ℕ, zero, suc, ◌+◌, ◌-◌, ◌/◌, ◌%◌, ◌^◌, ◌≤◌, ◌<◌, min, ◌≡◌, refl, inl, inr, Bool, false, ◌&&◌,
  ◌||◌, none, List, arith, ltb, ltb→lt, Bool-cases, get_or, get_or-replicate,
}
use watos.Common.Bits.{zero-get_bit}
use watos.Common.Count.{count_below, count_congr}
use watos.Phys.{
  PhysAllocator, new, init, alloc_page, scan_words, mark_free, set_page, max_pages, bitmap_size,
  page_size,
}
use watos.Phys.Bitmap.{is_free}
use watos.Phys.Valid.{IsValid, IsBitmap, new-IsValid, set_page-IsBitmap, set_page_at}
use watos.Phys.Contiguous.{in_run}

record Marked (page n : ℕ) (m m' : List ℕ) : Type 0 where
  bitmap : IsBitmap m'
  bits : (q : ℕ) → is_free m' q ≡ ((in_run page n q && ltb q max_pages) || is_free m q)

mark_free-Marked : (n page : ℕ) (m : List ℕ) → IsBitmap m → Marked page n m (mark_free n page m)
unfolding mark_free
mark_free-Marked zero page m v = record { bitmap = v; bits = λ q. ground arith }
mark_free-Marked (suc n) page m v = elim (Bool-cases (ltb page max_pages)) [
  | inl below ↦
      let below' = ltb→lt page max_pages below in
      let rest = mark_free-Marked n (page + 1) (set_page m page) (set_page-IsBitmap m page v) in
      rw below (record {
        bitmap = rest.bitmap;
        bits = λ q. ground (arith, rest.bits q, set_page_at m page v below' q);
      })
  | inr past ↦
      let rest = mark_free-Marked n (page + 1) m v in
      rw past (record { bitmap = rest.bitmap; bits = λ q. ground (arith, rest.bits q) })
]

count_run :
    (k page n : ℕ)
    → k ≤ max_pages
    → count_below k (λ q. in_run page n q && ltb q max_pages) ≡ min n (k - page)
unfolding count_below
count_run zero page n h = omega arith
count_run (suc k) page n h = ground (arith, count_run k page n (omega arith))

new-used : (q : ℕ) → is_free new.bitmap q ≡ false
unfolding new
new-used q = rw (get_or-replicate {A = ℕ} bitmap_size (q / 64) 0) (zero-get_bit (q % 64))

-- Set up with memory that starts below the limit, the allocator has exactly the pages of the range
-- below the limit free, counts them right, and is valid.
pub init-IsValid :
    (start size : ℕ)
    → start / page_size ≤ max_pages
    → IsValid (init start size new)
      × ((init start size new).total_pages ≡ (init start size new).free_pages)
      × ((q : ℕ)
          → is_free (init start size new).bitmap q
            ≡ (in_run (start / page_size) (size / page_size) q && ltb q max_pages))
unfolding init
init-IsValid start size h =
    let page = start / page_size in
    let n = size / page_size in
    let marked = mark_free-Marked n page new.bitmap new-IsValid.bitmap in
    let bits = λ (q : ℕ). bits_of (is_free (mark_free n page new.bitmap) q) q (marked.bits q) in
    (
      record {
        bitmap = marked.bitmap;
        counted = omega (
          arith,
          count_congr max_pages (is_free (mark_free n page new.bitmap))
              (λ q. in_run page n q && ltb q max_pages) (λ q k. bits q),
          count_run max_pages page n (omega arith),
        );
      },
      refl,
      bits,
    )
  where
    bits_of :
        (b : Bool) (q : ℕ)
        → b ≡ (
            (in_run (start / page_size) (size / page_size) q && ltb q max_pages)
            || is_free new.bitmap q)
        → b ≡ (in_run (start / page_size) (size / page_size) q && ltb q max_pages)
    bits_of b q e = ground (arith, e, new-used q)

mark_free_past : (n page : ℕ) (m : List ℕ) → max_pages ≤ page → mark_free n page m ≡ m
unfolding mark_free
mark_free_past zero page m h = refl
mark_free_past (suc n) page m h =
    let past : ltb page max_pages ≡ false = ground arith in
    rw past (mark_free_past n (page + 1) m (omega arith))

scan_words_zero :
    (n i : ℕ) (a : PhysAllocator)
    → ((k : ℕ) → get_or a.bitmap k 0 ≡ 0)
    → scan_words n i a ≡ (none, a)
unfolding scan_words
scan_words_zero zero i a all = refl
scan_words_zero (suc n) i a all =
    ground (arith, all ((a.next_free / 64 + i) % bitmap_size), scan_words_zero n (i + 1) a all)

alloc_page_zero :
    (a : PhysAllocator) → ((k : ℕ) → get_or a.bitmap k 0 ≡ 0) → (alloc_page a).0 ≡ none
unfolding alloc_page
alloc_page_zero a all = ground (arith, scan_words_zero bitmap_size 0 a all)

-- Set up with memory that starts past the limit, the allocator counts every page of the range as
-- free and has none: the first allocation fails.
pub init_past_limit :
    (start size : ℕ)
    → start < 2 ^ 64
    → size < 2 ^ 64
    → max_pages < start / page_size
    → ((init start size new).free_pages ≡ size / page_size)
      × ((alloc_page (init start size new)).0 ≡ none)
unfolding init
init_past_limit start size hs hz h = (
  omega arith,
  alloc_page_zero (init start size new) (λ k.
      rw (mark_free_past (size / page_size) (start / page_size) new.bitmap (omega arith))
        (unfold new in get_or-replicate {A = ℕ} bitmap_size k 0)),
)
