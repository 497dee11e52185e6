-- ===== src/Phys/Free.antt =====
-- `free_page` against the set of free pages.
use watos.Common.{
  ℕ, ◌+◌, ◌*◌, ◌/◌, ◌≤◌, ◌<◌, ◌≡◌, refl, ap, ◌∙◌, inl, inr, Bool, true, false, ◌||◌, some, List,
  arith, ◌==◌, if◌then◌else◌, ==_iff, Bool-cases,
}
use watos.Phys.{PhysAllocator, alloc_page, free_page, set_page, max_pages, page_size}
use watos.Phys.Bitmap.{is_free, page_used-eq-not-is_free}
use watos.Phys.Valid.{IsValid, set_page-IsBitmap, set_page_at, count-set_page}
use watos.Phys.Page.{Took, alloc_page-Took, alloc_page-empty}

-- `b` is `a` after page `p` was freed: no other page changes, the count grows by one if the page
-- was used, and `b` is valid.
pub record Gave (p : ℕ) (a b : PhysAllocator) : Type 0 where
  pub others : (q : ℕ) → is_free b.bitmap q ≡ ((p == q) || is_free a.bitmap q)
  pub counted_more : b.free_pages ≡ a.free_pages + (if is_free a.bitmap p then 0 else 1)
  pub valid : IsValid b

free_page-used :
    (a : PhysAllocator) (addr : ℕ)
    → addr / page_size < max_pages
    → is_free a.bitmap (addr / page_size) ≡ false
    → ((free_page addr a).bitmap ≡ set_page a.bitmap (addr / page_size))
      × ((free_page addr a).free_pages ≡ a.free_pages + 1)
unfolding free_page
free_page-used a addr h off = ground (arith, page_used-eq-not-is_free a.bitmap (addr / page_size))

free_page-free :
    (a : PhysAllocator) (addr : ℕ)
    → is_free a.bitmap (addr / page_size) ≡ true
    → free_page addr a ≡ a
unfolding free_page
free_page-free a addr on = ground (arith, page_used-eq-not-is_free a.bitmap (addr / page_size))

free_again : (m : List ℕ) (p q : ℕ) → is_free m p ≡ true → is_free m q ≡ ((p == q) || is_free m q)
free_again m p q on = elim (Bool-cases (p == q)) [
  | inl e ↦ rw (← (==_iff p q).0 e, on) (ground arith)
  | inr ne ↦ rw ne refl
]

-- In a valid allocator, `free_page` at an address below the limit leaves that page free and every
-- other page as it was, counts one page more exactly if the page was used, and keeps the allocator
-- valid.
pub free_page-Gave :
    (a : PhysAllocator) (addr : ℕ)
    → IsValid a
    → addr / page_size < max_pages
    → Gave (addr / page_size) a (free_page addr a)
free_page-Gave a addr v h =
    let p = addr / page_size in
    elim (Bool-cases (is_free a.bitmap p)) [
      | inl on ↦ rw (free_page-free a addr on) (record {
        others = λ q. free_again a.bitmap p q on;
        counted_more = rw on (omega arith);
        valid = v;
      })
      | inr off ↦
          let (bits, more) = free_page-used a addr h off in
          record {
            others = λ q. rw bits (set_page_at a.bitmap p v.bitmap h q);
            counted_more = rw off more;
            valid = record {
              bitmap = rw bits (set_page-IsBitmap a.bitmap p v.bitmap);
              counted =
                  rw bits
                    (omega (arith, more, v.counted, count-set_page a.bitmap p v.bitmap h off));
            };
          }
    ]

-- An address past the limit is ignored.
pub free_page_past :
    (a : PhysAllocator) (addr : ℕ) → max_pages ≤ addr / page_size → free_page addr a ≡ a
unfolding free_page
free_page_past a addr h = ground arith

give_back :
    (a b : PhysAllocator) (p addr : ℕ)
    → Took p a b
    → addr ≡ p * page_size
    → ((q : ℕ) → is_free (free_page addr b).bitmap q ≡ is_free a.bitmap q)
      × ((free_page addr b).free_pages ≡ a.free_pages)
give_back a b p addr t e =
    let at_p : addr / page_size ≡ p = omega arith in
    let g = free_page-Gave b addr t.valid (omega (arith, t.in_range)) in
    let used : is_free b.bitmap p ≡ false = ground (arith, t.others p) in
    (
      λ q.
          restored (is_free (free_page addr b).bitmap q) q
            (g.others q ∙ ap (λ k. (k == q) || is_free b.bitmap q) at_p),
      omega (arith, g.counted_more, t.one_less, one_more at_p used),
    )
  where
    one_more :
        addr / page_size ≡ p
        → is_free b.bitmap p ≡ false
        → if◌then◌else◌ {A = ℕ} (is_free b.bitmap (addr / page_size)) 0 1 ≡ 1
    one_more at_p used = rw (at_p, used)

    restored : (x : Bool) (q : ℕ) → x ≡ ((p == q) || is_free b.bitmap q) → x ≡ is_free a.bitmap q
    restored x q h = elim (Bool-cases (p == q)) [
      | inl same ↦
          let on : is_free a.bitmap q ≡ true = rw (← (==_iff p q).0 same) t.was_free in
          ground (arith, h, on)
      | inr other ↦ ground (arith, h, t.others q)
    ]

-- Freeing the page that `alloc_page` gave out of a valid allocator makes every page free or used
-- as it was before, and restores the count.
pub free_page-alloc_page :
    (a : PhysAllocator) {addr : ℕ} {b : PhysAllocator}
    → IsValid a
    → alloc_page a ≡ (some addr, b)
    → ((q : ℕ) → is_free (free_page addr b).bitmap q ≡ is_free a.bitmap q)
      × ((free_page addr b).free_pages ≡ a.free_pages)
free_page-alloc_page a {addr} {b} v e =
    let (p, gave, t) = alloc_page-Took a v (ground (arith, alloc_page-empty a)) in
    give_back a b p addr (rw e at t) (ground (arith, gave))
