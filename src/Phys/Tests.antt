-- ===== src/Phys/Tests.antt =====
-- Runs of the allocator on 20 KiB of memory from page 1 on, and the theorems at such states.
use watos.Phys.Owners.{IsOwned, run, run-IsOwned, takes, releases}
use watos.Common.{ℕ, ◌*◌, ◌≡◌, refl, ap, ◌≢◌, false, ◌&&◌, not, none, some, arith, ◌∷◌, []}
use watos.Phys.{
  PhysAllocator, new, init, alloc_page, free_page, alloc_contiguous, page_size, scan_words,
  take_from, mark_free, set_page,
}
use watos.Common.Bits.{trailing_zeros}
use watos.Phys.Bitmap.{is_free}
use watos.Phys.Valid.{IsValid}
use watos.Phys.Page.{Took, alloc_page-Took}
use watos.Phys.Free.{free_page-alloc_page}
use watos.Phys.Contiguous.{Outcome, in_run, alloc_contiguous-Outcome, alloc_contiguous-finds}
use watos.Phys.Init.{init-IsValid, init_past_limit}

abbrev sample : PhysAllocator
sample = init 0x1000 0x5000 new

sample-IsValid : IsValid sample
sample-IsValid = (init-IsValid 0x1000 0x5000 (omega arith)).0

abbrev after : PhysAllocator
after = (alloc_page sample).1

sample_pages : sample.free_pages ≡ 5
unfolding init
sample_pages = refl

alloc_page-sample : (alloc_page sample).0 ≡ some 0x1000
unfolding alloc_page scan_words take_from init mark_free set_page new trailing_zeros
alloc_page-sample = refl

alloc_page-Took_example :
    (p : ℕ) × ((alloc_page sample).0 ≡ some (p * page_size)) × Took p sample (alloc_page sample).1
alloc_page-Took_example = alloc_page-Took sample sample-IsValid (omega (arith, sample_pages))

alloc_page-pair : alloc_page sample ≡ (some 0x1000, after)
alloc_page-pair = ap (λ o. (o, after)) alloc_page-sample

free_page-alloc_page_example :
    ((q : ℕ) → is_free (free_page 0x1000 after).bitmap q ≡ is_free sample.bitmap q)
    × ((free_page 0x1000 after).free_pages ≡ sample.free_pages)
free_page-alloc_page_example = free_page-alloc_page sample sample-IsValid alloc_page-pair

alloc_contiguous-Outcome_example : Outcome sample 3 (alloc_contiguous 3 sample)
alloc_contiguous-Outcome_example = alloc_contiguous-Outcome sample 3 sample-IsValid

sample_run : (q : ℕ) → (in_run 2 3 q && not (is_free sample.bitmap q)) ≡ false
sample_run q = ground (arith, (init-IsValid 0x1000 0x5000 (omega arith)).2 q)

alloc_contiguous-finds_example : (alloc_contiguous 3 sample).0 ≢ none
alloc_contiguous-finds_example =
    alloc_contiguous-finds sample 3 2 sample-IsValid (omega arith) (omega arith) sample_run

init_past_limit_example :
    ((init 0x50000000 0x2000 new).free_pages ≡ 2)
    × ((alloc_page (init 0x50000000 0x2000 new)).0 ≡ none)
init_past_limit_example =
    init_past_limit 0x50000000 0x2000 (omega arith) (omega arith) (omega arith)

run-IsOwned_example :
    IsOwned
      (run (takes ∷ takes ∷ releases 1 ∷ takes ∷ []) (record { allocator = sample; held = [] }))
run-IsOwned_example = run-IsOwned (takes ∷ takes ∷ releases 1 ∷ takes ∷ []) sample sample-IsValid
