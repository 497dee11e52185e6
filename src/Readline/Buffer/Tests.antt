-- ===== src/Readline/Buffer/Tests.antt =====
-- Runs of the edit buffer, and the theorems at such buffers.
use watos.Common.{ℕ, ◌+◌, ◌≡◌, refl, Bool, none, some, List, [], ◌∷◌, arith, ◌==◌, length}
use watos.Readline.Buffer.Text.{slice, drain, skip_back, skip_forward}
use watos.Readline.Buffer.{
  EditBuffer, new, insert, with_content, set_mark, delete_to_start, not_whitespace,
  delete_word_back, exchange_point_and_mark, insert_str, delete_range, move_word_end,
}
use watos.Readline.Buffer.Delete.{delete, word_back, insert_str-delete}
use watos.Readline.Buffer.Edits.{Safe, run, run-Safe, inserts, backspaces, moves_word_left}
use watos.Readline.Buffer.Mark.{insert-exchange_point_and_mark}

abbrev is_space : ℕ → Bool
is_space c = c == b' '

-- `ab c`, the cursor at the end
abbrev two_words : EditBuffer
two_words = record { chars = b'a' ∷ b'b' ∷ b' ' ∷ b'c' ∷ []; cursor = 4; mark = none }

delete_word_back-two_words :
    delete_word_back is_space two_words
    ≡ some (b'c' ∷ [], record { chars = b'a' ∷ b'b' ∷ b' ' ∷ []; cursor = 3; mark = none })
unfolding delete_word_back skip_back not_whitespace slice drain
delete_word_back-two_words = refl

delete_range-two_words :
    delete_range 3 1 two_words
    ≡ some (b'b' ∷ b' ' ∷ [], record { chars = b'a' ∷ b'c' ∷ []; cursor = 1; mark = none })
unfolding delete_range slice drain
delete_range-two_words = refl

move_word_end-two_words :
    move_word_end is_space (record two_words { cursor = 1 }) ≡ record two_words { cursor = 3 }
unfolding move_word_end skip_forward not_whitespace
move_word_end-two_words = refl

insert_str-delete_example :
    (text : List ℕ) × (b' : EditBuffer) × (delete is_space word_back two_words ≡ some (text, b'))
    × (insert_str text b'
        ≡ some (record b' { chars = two_words.chars; cursor = b'.cursor + length text }))
insert_str-delete_example = insert_str-delete is_space word_back two_words (omega arith)

run-Safe_example :
    Safe (run is_space (inserts (b'a' ∷ b' ' ∷ b'b' ∷ []) ∷ moves_word_left ∷ backspaces ∷ []) new)
run-Safe_example =
    run-Safe is_space (inserts (b'a' ∷ b' ' ∷ b'b' ∷ []) ∷ moves_word_left ∷ backspaces ∷ [])

insert-exchange_point_and_mark_example :
    (b : EditBuffer) × (delete_to_start (set_mark (with_content (b'a' ∷ []))) ≡ some (b'a' ∷ [], b))
    × (insert b'x' (exchange_point_and_mark b) ≡ none)
insert-exchange_point_and_mark_example =
    insert-exchange_point_and_mark b'x' (b'a' ∷ []) (omega arith)
