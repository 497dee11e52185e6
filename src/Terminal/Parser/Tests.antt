-- ===== src/Terminal/Parser/Tests.antt =====
-- Runs of the parser on short texts.
use watos.Common.{◌≡◌, refl, true, false, [], ◌∷◌, ◌++◌, arith, replicate}
use watos.Terminal.Parser.{Event, print, osc, csi, Parser, new, run, advance, on_state}
use watos.Terminal.Parser
use watos.Terminal.Parser.Bounds.{WellFormed, AnswersAll}
use watos.Terminal.Parser.Bounds.Runs.{new-WellFormed, run-AnswersAll}
use watos.Terminal.Parser.Collecting.{Gives}
use watos.Terminal.Parser.Sequences.{csi_text, read_values, run-csi_text}
use watos.Terminal.Parser.Strings.{osc_text, run-osc_text}

-- a cursor command in the middle of a text, and the set mode of a private mode
cursor_text :
    (run (b'a' ∷ 0x1b ∷ b'[' ∷ b'1' ∷ b'2' ∷ b';' ∷ b'5' ∷ b'H' ∷ []) new).0
    ≡ print b'a' ∷ csi (12 ∷ 5 ∷ replicate 14 0) 2 0 b'H' false ∷ []
unfolding run advance on_state new Parser.on_ground Parser.on_escape Parser.on_csi_entry
    Parser.on_csi_param Parser.enter_csi Parser.csi_event Parser.push_param
cursor_text = refl

-- two escapes in a row: the second is dropped, and the sequence behind it is printed
escape_twice : (run (0x1b ∷ 0x1b ∷ b'[' ∷ b'A' ∷ []) new).0 ≡ print b'[' ∷ print b'A' ∷ []
unfolding run advance on_state new Parser.on_ground Parser.on_escape
escape_twice = refl

-- no parameter: a private sequence counts one
bare_text : (run (csi_text false [] [] b'H') new).0 ≡ csi (replicate 16 0) 0 0 b'H' false ∷ []
unfolding run advance on_state new Parser.on_ground Parser.on_escape Parser.on_csi_entry
    Parser.enter_csi Parser.csi_event
bare_text = refl

bare_private_text : (run (csi_text true [] [] b'h') new).0 ≡ csi (replicate 16 0) 1 0 b'h' true ∷ []
unfolding run advance on_state new Parser.on_ground Parser.on_escape Parser.on_csi_entry
    Parser.on_csi_private Parser.after_question Parser.enter_csi Parser.csi_event Parser.push_param
bare_private_text = refl

run-csi_text_example :
    Gives true
      (read_values true (2 ∷ 5 ∷ []) ((7 ∷ []) ∷ []))
      b'h'
      (run (csi_text true (2 ∷ 5 ∷ []) ((7 ∷ []) ∷ []) b'h') new)
unfolding new
run-csi_text_example = run-csi_text new true (2 ∷ 5 ∷ []) ((7 ∷ []) ∷ []) b'h' refl refl refl refl

run-osc_text_example :
    ((run (osc_text 0 (b';' ∷ b't' ∷ []) ++ 0x07 ∷ []) new).0 ≡ osc 0 ∷ [])
    × ((run (osc_text 0 (b';' ∷ b't' ∷ []) ++ 0x1b ∷ b'\\' ∷ []) new).0 ≡ osc 0 ∷ print b'\\' ∷ [])
unfolding new
run-osc_text_example = run-osc_text new 0 (b';' ∷ b't' ∷ []) refl refl refl (omega arith)

run-AnswersAll_example :
    AnswersAll (run (csi_text false (3 ∷ []) ((4 ∷ []) ∷ []) b'm') new).0
    × WellFormed (run (csi_text false (3 ∷ []) ((4 ∷ []) ∷ []) b'm') new).1
run-AnswersAll_example =
    run-AnswersAll (csi_text false (3 ∷ []) ((4 ∷ []) ∷ []) b'm') new new-WellFormed
