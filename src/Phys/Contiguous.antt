-- ===== src/Phys/Contiguous.antt =====
-- `alloc_contiguous`: the pages that it gives out, and that it finds a run wherever there is one.
use watos.Common.{
  ℕ, zero, suc, ◌+◌, ◌-◌, ◌*◌, ◌≤◌, ◌<◌, ◌≡◌, refl, ◌≢◌, ◌⊎◌, inl, inr, Bool, true, false, ◌&&◌,
  not, Option, none, some, List, arith, ltb, leb, ◌==◌, if◌then◌else◌, ==_iff, Bool-cases, ◌||◌,
}
use native.Mathlib.Decide.{ℕ_discrete}
use watos.Common.Count.{count_below}
use watos.Phys.{
  PhysAllocator, scan_runs, mark_used, clear_page, max_pages, page_size, alloc_contiguous,
}
use watos.Phys.Bitmap.{is_free, page_used-eq-not-is_free}
use watos.Phys.Valid.{IsValid, IsBitmap, clear_page-IsBitmap, clear_page_at, count-clear_page}

-- Page `q` is one of the `n` pages from `p` on.
abbrev pub in_run : ℕ → ℕ → ℕ → Bool
in_run p n q = leb p q && ltb q (p + n)

-- What clearing a run does to the bitmap and to the count.
record Cleared (p n : ℕ) (m m' : List ℕ) : Type 0 where
  bits : (q : ℕ) → is_free m' q ≡ (not (in_run p n q) && is_free m q)
  bitmap : IsBitmap m'
  fewer :
      ((q : ℕ) → (in_run p n q && not (is_free m q)) ≡ false)
      → count_below max_pages (is_free m) ≡ count_below max_pages (is_free m') + n

not-in_run : (b : Bool) (p q : ℕ) → b ≡ (not (in_run p 0 q) && b)
not-in_run b p q = ground arith

mark_used-Cleared :
    (n p : ℕ) (m : List ℕ) → IsBitmap m → p + n ≤ max_pages → Cleared p n m (mark_used n p m)
unfolding mark_used
mark_used-Cleared zero p m v h = record {
  bits = λ q. not-in_run (is_free m q) p q;
  bitmap = v;
  fewer = λ all. omega arith;
}
mark_used-Cleared (suc n) p m v h =
    let at_p = clear_page_at m p v (omega arith) in
    let rest =
      mark_used-Cleared n (p + 1) (clear_page m p) (clear_page-IsBitmap m p v) (omega arith) in
    record {
      bits = λ q. ground (arith, rest.bits q, at_p q);
      bitmap = rest.bitmap;
      fewer = λ all. omega (
        arith,
        count-clear_page m p v (omega arith) (ground (arith, all p)),
        rest.fewer (λ q. ground (arith, at_p q, all q)),
      );
    }

-- `b` is `a` with the run of `count` free pages from `s` on taken: nothing else changes, and `b` is
-- valid.
pub record TookRun (s count : ℕ) (a b : PhysAllocator) : Type 0 where
  pub in_range : s + count ≤ max_pages
  pub were_free : (q : ℕ) → (in_run s count q && not (is_free a.bitmap q)) ≡ false
  pub others : (q : ℕ) → is_free b.bitmap q ≡ (not (in_run s count q) && is_free a.bitmap q)
  pub fewer : b.free_pages + count ≡ a.free_pages
  pub valid : IsValid b

-- Nothing given and nothing changed, or a run taken.
abbrev pub Outcome : PhysAllocator → ℕ → Option ℕ × PhysAllocator → Type 0
Outcome a count r =
    ((r.0 ≡ none) × (r.1 ≡ a)) ⊎ ((s : ℕ) × (r.0 ≡ some (s * page_size)) × TookRun s count a r.1)

module _ (a : PhysAllocator) (v : IsValid a) (count : ℕ) where
  taken :
      (s : ℕ)
      → s + count ≤ max_pages
      → ((q : ℕ) → (in_run s count q && not (is_free a.bitmap q)) ≡ false)
      → TookRun s count a
          (record a { bitmap = mark_used count s a.bitmap; free_pages = a.free_pages - count })
  taken s h all =
      let c = mark_used-Cleared count s a.bitmap v.bitmap h in
      let less = c.fewer all in
      record {
        in_range = h;
        were_free = all;
        others = c.bits;
        fewer = omega (arith, v.counted, less);
        valid = record { bitmap = c.bitmap; counted = omega (arith, v.counted, less) };
      }

  -- where the run that ends before `page` started
  abbrev start_of : ℕ → ℕ → ℕ → ℕ
  start_of page run_start run_length = if run_length == 0 then page else run_start

  grow :
      (page s len : ℕ)
      → s + len ≡ page
      → ((q : ℕ) → (in_run s len q && not (is_free a.bitmap q)) ≡ false)
      → is_free a.bitmap page ≡ true
      → (q : ℕ) → (in_run s (len + 1) q && not (is_free a.bitmap q)) ≡ false
  grow page s len e all on q = elim (Bool-cases (page == q)) [
    | inl same ↦
        let on' : is_free a.bitmap q ≡ true = rw (← (==_iff page q).0 same) on in
        ground (arith, on')
    | inr other ↦ ground (arith, all q)
  ]

  module _ (n page rs len : ℕ) where
    step_used :
        is_free a.bitmap page ≡ false
        → scan_runs count (suc n) page rs len a ≡ scan_runs count n (page + 1) rs 0 a
    unfolding scan_runs
    step_used off = ground (arith, page_used-eq-not-is_free a.bitmap page)

    step_found :
        is_free a.bitmap page ≡ true
        → len + 1 ≡ count
        → scan_runs count (suc n) page rs len a ≡ (
          some (start_of page rs len * page_size),
          record a {
            bitmap = mark_used count (start_of page rs len) a.bitmap;
            free_pages = a.free_pages - count;
          },
        )
    unfolding scan_runs
    step_found on e = ground (arith, page_used-eq-not-is_free a.bitmap page)

    step_further :
        is_free a.bitmap page ≡ true
        → len + 1 ≢ count
        → scan_runs count (suc n) page rs len a
          ≡ scan_runs count n (page + 1) (start_of page rs len) (len + 1) a
    unfolding scan_runs
    step_further on e = ground (arith, page_used-eq-not-is_free a.bitmap page)

  scan_runs-Outcome :
      (n page rs len : ℕ)
      → page + n ≡ max_pages
      → start_of page rs len + len ≡ page
      → ((q : ℕ) → (in_run (start_of page rs len) len q && not (is_free a.bitmap q)) ≡ false)
      → Outcome a count (scan_runs count n page rs len a)
  scan_runs-Outcome zero page rs len e f all = unfold scan_runs in inl (refl, refl)
  scan_runs-Outcome (suc n) page rs len e f all =
      let s = start_of page rs len in
      elim (Bool-cases (is_free a.bitmap page)) [
        | inr off ↦
            rw (step_used n page rs len off)
              (scan_runs-Outcome n (page + 1) rs 0 (omega arith) (omega arith) (λ q. ground arith))
        | inl on ↦ elim (ℕ_discrete (len + 1) count) [
          | yes full ↦
              let run = grow page s len f all on in
              rw (step_found n page rs len on full)
                (inr (s, refl, taken s (omega arith) (λ q. rw (← full) (run q))))
          | no short ↦
              let same : start_of (page + 1) s (len + 1) ≡ s = ground arith in
              rw (step_further n page rs len on short) (
                scan_runs-Outcome n (page + 1) s (len + 1) (omega arith) (rw same (omega arith))
                  (λ q. rw same (grow page s len f all on q)))
        ]
      ]

  -- A run of `count` free pages from `s` on is found, if the scan has not passed its end and has
  -- counted all of it that it has passed.
  scan_runs-finds :
      (n page rs len s : ℕ)
      → ((q : ℕ) → (in_run s count q && not (is_free a.bitmap q)) ≡ false)
      → page < s + count
      → s + count ≤ page + n
      → page ≤ s + len
      → len < count
      → (scan_runs count n page rs len a).0 ≢ none
  scan_runs-finds zero page rs len s all h k l c = absurd (omega arith)
  scan_runs-finds (suc n) page rs len s all h k l c = elim (Bool-cases (is_free a.bitmap page)) [
    | inr off ↦
        let before : page < s = ground (arith, all page) in
        rw (step_used n page rs len off) (
          scan_runs-finds n (page + 1) rs 0 s all (omega arith) (omega arith) (omega arith)
            (omega arith))
    | inl on ↦ elim (ℕ_discrete (len + 1) count) [
      | yes full ↦ rw (step_found n page rs len on full) (λ e. cc)
      | no short ↦ rw (step_further n page rs len on short) (
          scan_runs-finds n (page + 1) (start_of page rs len) (len + 1) s all (omega arith)
            (omega arith) (omega arith) (omega arith))
    ]
  ]

-- In a valid allocator `alloc_contiguous` either gives nothing and changes nothing, or it gives the
-- address of a run of `count` free pages, of which exactly the run becomes used.
pub alloc_contiguous-Outcome :
    (a : PhysAllocator) (count : ℕ) → IsValid a → Outcome a count (alloc_contiguous count a)
unfolding alloc_contiguous
alloc_contiguous-Outcome a count v = elim (Bool-cases (count == 0 || ltb a.free_pages count)) [
  | inl no_room ↦ rw no_room (inl (refl, refl))
  | inr room ↦
      rw room (
        scan_runs-Outcome a v count max_pages 0 0 0 (omega arith) (omega arith) (λ q. ground arith))
]

-- In a valid allocator, where the `count` pages from `s` on lie below the limit and are all free,
-- and `count` is not 0, `alloc_contiguous` gives an address.
pub alloc_contiguous-finds :
    (a : PhysAllocator) (count s : ℕ)
    → IsValid a
    → 0 < count
    → s + count ≤ max_pages
    → ((q : ℕ) → (in_run s count q && not (is_free a.bitmap q)) ≡ false)
    → (alloc_contiguous count a).0 ≢ none
unfolding alloc_contiguous
alloc_contiguous-finds a count s v pos h all =
    let enough = (mark_used-Cleared count s a.bitmap v.bitmap h).fewer all in
    let room : (count == 0 || ltb a.free_pages count) ≡ false = ground (arith, v.counted, enough) in
    rw room (
      scan_runs-finds a v count max_pages 0 0 0 s all (omega arith) (omega arith) (omega arith) pos)
