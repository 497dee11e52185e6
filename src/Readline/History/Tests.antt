-- ===== src/Readline/History/Tests.antt =====
-- Runs of the history, and the theorems at such a history.
use watos.Common.{◌≡◌, refl, some, arith, ℕ, Bool, true, none, List, [], ◌∷◌}
use watos.FilePath.Text.{text_eq}
use watos.Readline.History.{
  History, new, add, prev, entry_at, start_navigation, reset_position, is_last, get, next,
}
use watos.Readline.History.Walk.{walk_back, repeat, walked}
use watos.Readline.History.Kept.{Keeps}
use watos.Readline.History.Runs.{run_calls, run-Keeps, adds, goes_prev, goes_next}

-- trimming that leaves the line as it is, and a search that finds everything
abbrev as_typed : List ℕ → List ℕ
as_typed s = s

abbrev anywhere : List ℕ → List ℕ → Bool
anywhere s p = true

abbrev two_lines : History
two_lines = add as_typed (b'b' ∷ []) (add as_typed (b'a' ∷ []) (new 2))

prev-two_lines :
    prev (b'x' ∷ []) two_lines
    ≡ some (
      some (b'b' ∷ []),
      record {
        entries = (b'a' ∷ []) ∷ (b'b' ∷ []) ∷ [];
        max_size = 2;
        position = 1;
        current_edit = b'x' ∷ [];
        navigating = true;
      },
    )
unfolding prev add entry_at start_navigation reset_position is_last text_eq
prev-two_lines = refl

run-Keeps_example : Keeps (
    run_calls as_typed anywhere
      (adds (b'a' ∷ []) ∷ goes_prev (b'x' ∷ []) ∷ goes_next ∷ [])
      none
      (new 2))
run-Keeps_example =
    run-Keeps as_typed anywhere 2 (adds (b'a' ∷ []) ∷ goes_prev (b'x' ∷ []) ∷ goes_next ∷ [])

-- the second line back, then the line that was being typed
walk_back_example :
    (line : List ℕ) × (h : History) × (get 1 two_lines ≡ some line)
    × (repeat 1 (prev (b'x' ∷ [])) two_lines ≡ some (some line, h))
    × (repeat 1 next h ≡ some (some (b'x' ∷ []), walked (b'x' ∷ []) two_lines))
unfolding add reset_position is_last text_eq
walk_back_example = walk_back (b'x' ∷ []) two_lines 1 refl (omega arith)
