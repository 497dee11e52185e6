-- ===== src/Readline/History/Runs.antt =====
-- The history over every sequence of calls.
use watos.Common.{ℕ, refl, Bool, Option, none, some, List, [], ◌∷◌, arith}
use watos.Readline.Buffer.{◌>>=◌}
use watos.Readline.History.{
  History, new, reset_position, clear, start_navigation, prev, next, add, search_backward,
  search_forward,
}
use watos.Readline.History.Searches.{search_backward-Keeps, search_forward-Keeps}
use watos.Readline.History.Kept.{
  IsValid, Keeps, add-IsValid, reset_position-IsValid, clear-IsValid, start_navigation-IsValid,
  prev-Keeps, next-Keeps,
}

module _ (trim : List ℕ → List ℕ) (contains : List ℕ → List ℕ → Bool) where
  -- every call that changes a history
  pub data Call : Type 0 where
    adds starts : List ℕ → Call
    clears resets goes_next : Call
    goes_prev : List ℕ → Call
    searches_backward : List ℕ → List ℕ → Call
    searches_forward : List ℕ → Call

  -- what a call gives back, and the history after it
  abbrev pub apply : Call → History → Option (Option (List ℕ) × History)
  apply (adds line) h = some (none, add trim line h)
  apply (starts current) h = some (none, start_navigation current h)
  apply clears h = some (none, clear h)
  apply resets h = some (none, reset_position h)
  apply goes_next h = next h
  apply (goes_prev current) h = prev current h
  apply (searches_backward pattern current) h = search_backward contains pattern current h
  apply (searches_forward pattern) h = search_forward contains pattern h

  apply-Keeps : (c : Call) (h : History) → IsValid h → Keeps (apply c h)
  apply-Keeps (adds line) h v = (none, add trim line h, refl, add-IsValid trim line h v)
  apply-Keeps (starts current) h v =
      (none, start_navigation current h, refl, start_navigation-IsValid current h v)
  apply-Keeps clears h v = (none, clear h, refl, clear-IsValid h)
  apply-Keeps resets h v = (none, reset_position h, refl, reset_position-IsValid h v)
  apply-Keeps goes_next h v = next-Keeps h v
  apply-Keeps (goes_prev current) h v = prev-Keeps current h v
  apply-Keeps (searches_backward pattern current) h v =
      search_backward-Keeps contains pattern current h v
  apply-Keeps (searches_forward pattern) h v = search_forward-Keeps contains pattern h v

  -- what the last call gives back, and the history after all of them
  abbrev pub run_calls : List Call → Option (List ℕ) → History → Option (Option (List ℕ) × History)
  run_calls [] o h = some (o, h)
  run_calls (c ∷ cs) o h = apply c h >>= λ (o', h'). run_calls cs o' h'

  run_from :
      (cs : List Call) (o : Option (List ℕ)) (h : History) → IsValid h → Keeps (run_calls cs o h)
  run_from [] o h v = (o, h, refl, v)
  run_from (c ∷ cs) o h v = let (o', h', e, w) = apply-Keeps c h v in rw e (run_from cs o' h' w)

  -- Whichever calls are made on a new history, none panics, and in the end the entries are no more
  -- than the limit (one, where the limit is 0), no entry equals the one before it, and the position is
  -- at most the number of entries.
  pub run-Keeps : (max_size : ℕ) (cs : List Call) → Keeps (run_calls cs none (new max_size))
  run-Keeps max_size cs =
      run_from cs none (new max_size)
        record { few = omega arith; unrepeated = refl; inside = omega arith }
