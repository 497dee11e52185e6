-- ===== src/Phys/Valid.antt =====
-- The invariant of the allocator: the bitmap has its 4096 words of 64 bits, and the count of free
-- pages is the number of set bits.
use watos.Common.{
  ℕ, ◌+◌, ◌/◌, ◌%◌, ◌<◌, ◌≡◌, sym, true, false, ◌&&◌, ◌||◌, not, List, length, length-replicate,
  get_or-replicate, arith, ◌==◌,
}
use watos.Common.Bits.{zero-get_bit}
use watos.Common.Count.{count_below, count_flip, count_none}
use watos.Phys.{PhysAllocator, new, set_page, clear_page, max_pages, bitmap_size}
use watos.Phys.Bitmap.{
  is_free, AreWords, is_free-set_page, is_free-clear_page, length-set_page, length-clear_page,
  set_page-AreWords, clear_page-AreWords,
}

pub record IsBitmap (m : List ℕ) : Type 0 where
  pub size : length m ≡ bitmap_size
  pub words : AreWords m

pub record IsValid (a : PhysAllocator) : Type 0 where
  pub bitmap : IsBitmap a.bitmap
  pub counted : a.free_pages ≡ count_below max_pages (is_free a.bitmap)

pub set_page-IsBitmap : (m : List ℕ) (p : ℕ) → IsBitmap m → IsBitmap (set_page m p)
set_page-IsBitmap m p v = record {
  size = rw length-set_page v.size;
  words = set_page-AreWords m p v.words;
}

pub clear_page-IsBitmap : (m : List ℕ) (p : ℕ) → IsBitmap m → IsBitmap (clear_page m p)
clear_page-IsBitmap m p v = record {
  size = rw length-clear_page v.size;
  words = clear_page-AreWords m p v.words;
}

module _ (m : List ℕ) (p : ℕ) (v : IsBitmap m) (h : p < max_pages) where
  in_bitmap : p / 64 < length m
  in_bitmap = omega (arith, v.size)

  pub set_page_at : (q : ℕ) → is_free (set_page m p) q ≡ ((p == q) || is_free m q)
  set_page_at q = is_free-set_page m p q in_bitmap

  pub clear_page_at : (q : ℕ) → is_free (clear_page m p) q ≡ (not (p == q) && is_free m q)
  clear_page_at q = is_free-clear_page m p q in_bitmap

  -- Setting a used page adds one to the count.
  pub count-set_page :
      is_free m p ≡ false
      → count_below max_pages (is_free (set_page m p)) ≡ count_below max_pages (is_free m) + 1
  count-set_page off =
      count_flip max_pages p (is_free m) (is_free (set_page m p)) h off
        (ground (arith, set_page_at p)) (λ i ne. ground (arith, set_page_at i))

  -- Clearing a free page takes one from it.
  pub count-clear_page :
      is_free m p ≡ true
      → count_below max_pages (is_free m) ≡ count_below max_pages (is_free (clear_page m p)) + 1
  count-clear_page on =
      count_flip max_pages p (is_free (clear_page m p)) (is_free m) h
        (ground (arith, clear_page_at p)) on (λ i ne. ground (arith, clear_page_at i))

-- The allocator is created valid, with no page free.
pub new-IsValid : IsValid new
unfolding new
new-IsValid = record {
  bitmap = record {
    size = length-replicate {A = ℕ} bitmap_size 0;
    words = λ i. rw (get_or-replicate {A = ℕ} bitmap_size i 0) (omega arith);
  };
  counted = sym (
      count_none max_pages _
        (λ i h. rw (get_or-replicate {A = ℕ} bitmap_size (i / 64) 0) (zero-get_bit (i % 64))));
}
