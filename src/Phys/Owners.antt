-- ===== src/Phys/Owners.antt =====
-- Pages in use: over every sequence of allocations and releases, no page has two owners.
use watos.Common.{
  ℕ, ◌*◌, ◌/◌, ◌<◌, ◌≡◌, refl, ap, ◌∙◌, inl, inr, Bool, true, false, ◌&&◌, ◌||◌, not, Option, none,
  some, List, [], ◌∷◌, arith, leb, ◌==◌, if◌then◌else◌, ==_iff, Bool-cases,
}
use watos.Phys.{PhysAllocator, alloc_page, free_page, page_size, max_pages}
use watos.Phys.Bitmap.{is_free}
use watos.Phys.Valid.{IsValid}
use watos.Phys.Page.{Took, alloc_page-Took, alloc_page-empty}
use watos.Phys.Free.{free_page-Gave}

abbrev pub member : ℕ → List ℕ → Bool
member p [] = false
member p (q ∷ qs) = p == q || member p qs

abbrev pub distinct : List ℕ → Bool
distinct [] = true
distinct (p ∷ ps) = not (member p ps) && distinct ps

abbrev pub remove : ℕ → List ℕ → List ℕ
remove p [] = []
remove p (q ∷ qs) = if p == q then remove p qs else q ∷ remove p qs

member-remove : (p q : ℕ) (ps : List ℕ) → member q (remove p ps) ≡ (not (p == q) && member q ps)
member-remove p q [] = ground arith
member-remove p q (r ∷ rs) = ground (arith, member-remove p q rs)

distinct-remove : (p : ℕ) (ps : List ℕ) → distinct ps ≡ true → distinct (remove p ps) ≡ true
distinct-remove p [] h = refl
distinct-remove p (q ∷ qs) h = ground (arith, member-remove p q qs, distinct-remove p qs)

-- an allocator, and the pages that were given out and not released
pub record Owners : Type 0 where
  pub allocator : PhysAllocator
  pub held : List ℕ

-- take a page, or release one that is held
pub data Op : Type 0 where
  takes : Op
  releases : ℕ → Op

abbrev pub give : Option ℕ × PhysAllocator → List ℕ → Owners
give (none, a) held = record { allocator = a; held = held }
give (some addr, a) held = record { allocator = a; held = addr / page_size ∷ held }

abbrev pub step : Op → Owners → Owners
step takes s = give (alloc_page s.allocator) s.held
step (releases p) s =
    if member p s.held
    then record { allocator = free_page (p * page_size) s.allocator; held = remove p s.held }
    else s

abbrev pub run : List Op → Owners → Owners
run [] s = s
run (op ∷ ops) s = run ops (step op s)

-- The allocator is valid, no page is held twice, and the pages that are held are used.
pub record IsOwned (s : Owners) : Type 0 where
  pub valid : IsValid s.allocator
  pub once : distinct s.held ≡ true
  pub used : (q : ℕ) → (member q s.held && is_free s.allocator.bitmap q) ≡ false
  pub in_range : (q : ℕ) → (member q s.held && leb max_pages q) ≡ false

takes-IsOwned : (s : Owners) → IsOwned s → IsOwned (step takes s)
takes-IsOwned s v = elim (Bool-cases (s.allocator.free_pages == 0)) [
  | inl e ↦ rw (alloc_page-empty s.allocator ((==_iff s.allocator.free_pages 0).0 e)) v
  | inr e ↦ let (p, gave, t) = alloc_page-Took s.allocator v.valid (ground arith) in given p gave t
]
  where
    given :
        (p : ℕ)
        → (alloc_page s.allocator).0 ≡ some (p * page_size)
        → Took p s.allocator (alloc_page s.allocator).1
        → IsOwned (step takes s)
    given p gave t =
        let pair : alloc_page s.allocator ≡ (some (p * page_size), (alloc_page s.allocator).1) =
          ap (λ o. (o, (alloc_page s.allocator).1)) gave in
        let same : p * page_size / page_size ≡ p = omega arith in
        let new : member p s.held ≡ false = ground (arith, v.used p, t.was_free) in
        let result : IsOwned
            (record { allocator = (alloc_page s.allocator).1; held = p ∷ s.held }) =
          record {
            valid = t.valid;
            once = rw new v.once;
            used = λ q. ground (arith, v.used q, t.others q);
            in_range = λ q. ground (arith, v.in_range q, t.in_range);
          } in
        let given_out : step takes s
            ≡ record { allocator = (alloc_page s.allocator).1; held = p ∷ s.held } =
          ap (λ r. give r s.held) pair
          ∙ ap (λ q. record { allocator = (alloc_page s.allocator).1; held = q ∷ s.held }) same in
        rw given_out result

releases-IsOwned : (p : ℕ) (s : Owners) → IsOwned s → IsOwned (step (releases p) s)
releases-IsOwned p s v = elim (Bool-cases (member p s.held)) [
  | inr e ↦ rw e v
  | inl e ↦
      let same : p * page_size / page_size ≡ p = omega arith in
      let low : p < max_pages = ground (arith, v.in_range p) in
      let g = rw same at (free_page-Gave s.allocator (p * page_size) v.valid (omega arith)) in
      rw e record {
        valid = g.valid;
        once = distinct-remove p s.held v.once;
        used = λ q. ground (arith, member-remove p q s.held, v.used q, g.others q);
        in_range = λ q. ground (arith, member-remove p q s.held, v.in_range q);
      }
]

-- Over every sequence of allocations of a page and releases of pages that are held, starting from a
-- valid allocator with no page held: the allocator stays valid, and every page that is held is used,
-- below the limit, and held once.
pub run-IsOwned :
    (ops : List Op) (a : PhysAllocator)
    → IsValid a
    → IsOwned (run ops (record { allocator = a; held = [] }))
run-IsOwned ops a v =
    run_from ops (record { allocator = a; held = [] })
      record { valid = v; once = refl; used = λ q. refl; in_range = λ q. refl }
  where
    run_from : (ops : List Op) (s : Owners) → IsOwned s → IsOwned (run ops s)
    run_from [] s v = v
    run_from (takes ∷ ops) s v = run_from ops (step takes s) (takes-IsOwned s v)
    run_from (releases p ∷ ops) s v = run_from ops (step (releases p) s) (releases-IsOwned p s v)
