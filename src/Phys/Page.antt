-- ===== src/Phys/Page.antt =====
-- `alloc_page` and `free_page` against the set of free pages.
use watos.Common.{
  ℕ, zero, suc, ◌+◌, ◌-◌, ◌*◌, ◌/◌, ◌%◌, ◌<◌, ◌≡◌, refl, ◌≢◌, ◌⊎◌, inl, inr, true, false, ◌&&◌, not,
  none, some, arith, ◌==◌, Bool-cases, get_or,
}
use watos.Common.Bits.{eq-zero→get_bit, trailing_zeros, get_bit-trailing_zeros}
use watos.Common.Count.{count_some}
use watos.Phys.{
  PhysAllocator, alloc_page, take_from, scan_words, clear_page, max_pages, bitmap_size, page_size,
}
use watos.Phys.Bitmap.{is_free}
use watos.Phys.Valid.{IsValid, clear_page-IsBitmap, clear_page_at, count-clear_page}

-- `b` is `a` with the free page `p` taken: nothing else changes, and `b` is valid.
pub record Took (p : ℕ) (a b : PhysAllocator) : Type 0 where
  pub in_range : p < max_pages
  pub was_free : is_free a.bitmap p ≡ true
  pub others : (q : ℕ) → is_free b.bitmap q ≡ (not (p == q) && is_free a.bitmap q)
  pub one_less : b.free_pages + 1 ≡ a.free_pages
  pub valid : IsValid b

module _ (a : PhysAllocator) (v : IsValid a) where
  clear-Took :
      (p h : ℕ)
      → p < max_pages
      → is_free a.bitmap p ≡ true
      → Took p a (record a {
        bitmap = clear_page a.bitmap p;
        free_pages = a.free_pages - 1;
        next_free = h;
      })
  clear-Took p h below on =
      let fewer = count-clear_page a.bitmap p v.bitmap below on in
      record {
        in_range = below;
        was_free = on;
        others = clear_page_at a.bitmap p v.bitmap below;
        one_less = omega (arith, v.counted, fewer);
        valid = record {
          bitmap = clear_page-IsBitmap a.bitmap p v.bitmap;
          counted = omega (arith, v.counted, fewer);
        };
      }

  take_from-Took :
      (idx : ℕ)
      → idx < bitmap_size
      → get_or a.bitmap idx 0 ≢ 0
      → (p : ℕ) × ((take_from idx a).0 ≡ some (p * page_size)) × Took p a (take_from idx a).1
  unfolding take_from clear_page
  take_from-Took idx h ne =
      let word = get_or a.bitmap idx 0 in
      let bit = trailing_zeros 64 word in
      let p = idx * 64 + bit in
      let (low, on) = get_bit-trailing_zeros 64 word (v.bitmap.words idx) ne in
      let at_word : p / 64 ≡ idx = omega (arith, low) in
      let at_bit : p % 64 ≡ bit = omega (arith, low) in
      let on' : is_free a.bitmap p ≡ true = rw (at_word, at_bit) on in
      let taken = clear-Took p (p + 1) (omega (arith, low, h)) on' in
      (p, refl, rw (at_word, at_bit) at taken)

zeros_from :
    (f : ℕ → ℕ) (n i : ℕ)
    → f i ≡ 0
    → ((k : ℕ) → k < n → f (i + 1 + k) ≡ 0)
    → (k : ℕ) → k < suc n
    → f (i + k) ≡ 0
zeros_from f n i e h zero l = let same : i + zero ≡ i = omega arith in rw same e
zeros_from f n i e h (suc k) l =
    let same : i + suc k ≡ i + 1 + k = omega arith in rw same (h k (omega arith))

-- What a scan of the words leaves: nothing found in the words it passed, or a page taken.
scan_words_cases :
    (a : PhysAllocator) (v : IsValid a) (n i : ℕ)
    → ((scan_words n i a ≡ (none, a))
        × ((k : ℕ) → k < n → get_or a.bitmap ((a.next_free / 64 + (i + k)) % bitmap_size) 0 ≡ 0))
      ⊎ ((p : ℕ) × ((scan_words n i a).0 ≡ some (p * page_size)) × Took p a (scan_words n i a).1)
unfolding scan_words
scan_words_cases a v zero i = inl (refl, λ k h. absurd (omega arith))
scan_words_cases a v (suc n) i =
    let idx = (a.next_free / 64 + i) % bitmap_size in
    elim (Bool-cases (get_or a.bitmap idx 0 == 0)) [
      | inr found ↦ rw found (inr (take_from-Took a v idx (omega arith) (λ e. ground arith)))
      | inl empty ↦ rw empty (elim (scan_words_cases a v n (i + 1)) [
        | inl (same, zeros) ↦ inl (
          same,
          zeros_from (λ j. get_or a.bitmap ((a.next_free / 64 + j) % bitmap_size) 0) n i
              (ground arith) zeros,
        )
        | inr took ↦ inr took
      ])
    ]

-- A valid allocator with a free page gives one out: its address, page aligned and in range, is of a
-- page that was free; afterwards exactly that page has become used, the count is one less, and the
-- allocator is valid.
pub alloc_page-Took :
    (a : PhysAllocator)
    → IsValid a
    → 0 < a.free_pages
    → (p : ℕ) × ((alloc_page a).0 ≡ some (p * page_size)) × Took p a (alloc_page a).1
unfolding alloc_page
alloc_page-Took a v pos =
    let nonzero : (a.free_pages == 0) ≡ false = ground arith in
    rw nonzero (elim (scan_words_cases a v bitmap_size 0) [
      | inr took ↦ took
      | inl (same, zeros) ↦ absurd (all_zero zeros)
    ])
  where
    all_zero :
        ((k : ℕ)
          → k < bitmap_size
          → get_or a.bitmap ((a.next_free / 64 + (0 + k)) % bitmap_size) 0 ≡ 0)
        → ⊥
    all_zero zeros =
        let (q, below, on) = count_some max_pages (is_free a.bitmap) (omega (arith, v.counted)) in
        let k = (bitmap_size + q / 64 - a.next_free / 64 % bitmap_size) % bitmap_size in
        let at_q : (a.next_free / 64 + (0 + k)) % bitmap_size ≡ q / 64 = omega arith in
        let empty = rw at_q at (zeros k (omega arith)) in
        ground (arith, on, eq-zero→get_bit (get_or a.bitmap (q / 64) 0) (q % 64) empty)

-- An allocator with no free page gives none out and does not change.
pub alloc_page-empty : (a : PhysAllocator) → a.free_pages ≡ 0 → alloc_page a ≡ (none, a)
unfolding alloc_page
alloc_page-empty a e = ground arith
