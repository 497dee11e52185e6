-- ===== src/Terminal/Parser/Sequences.antt =====
-- Whole control sequences: the text of one gives its event, from what it was written from.
use mathlib.Core.Path.{subst}
use watos.Common.{
  ℕ, ◌+◌, ◌-◌, ◌*◌, ◌%◌, ◌^◌, ◌≡◌, refl, sym, ap, ◌∙◌, Bool, true, false, none, List, [], ◌∷◌, ◌++◌,
  append_assoc, arith, ltb, ◌==◌,
}
use watos.Terminal.Parser.{
  State, at_ground, at_escape, at_csi_entry, at_csi_param, at_csi_private, at_osc_string,
  at_charset_select, Parser, between, enter_csi, on_ground, on_escape, push_param, csi_event,
  on_csi_entry, with_digit, on_csi_param, after_question, on_csi_private, on_state, advance, run,
}
use watos.Terminal.Parser.Collecting.{
  collecting, digits, all_digits, number_from, number, further, all_numbers, numbers, run-none,
  run-quiet, digits-collecting, Gives, further-Gives,
}

-- the states in which an escape byte starts over
abbrev pub interruptible : State → Bool
interruptible at_ground = true
interruptible at_escape = false
interruptible at_csi_entry = true
interruptible at_csi_param = true
interruptible at_csi_private = true
interruptible at_osc_string = false
interruptible at_charset_select = false

pub escape_lem :
    (st : State) (p : Parser)
    → interruptible st ≡ true
    → (q : Parser) × (on_state st 0x1b p ≡ (none, q)) × (q.state ≡ at_escape)
unfolding on_state on_ground on_csi_entry on_csi_param on_csi_private after_question
escape_lem at_ground p h = (_, refl, refl)
escape_lem at_csi_entry p h = (_, refl, refl)
escape_lem at_csi_param p h = (_, refl, refl)
escape_lem at_csi_private p h = (_, refl, refl)
escape_lem at_escape p h = cc
escape_lem at_osc_string p h = cc
escape_lem at_charset_select p h = cc

bracket_lem : (q : Parser) → q.state ≡ at_escape → advance b'[' q ≡ (none, enter_csi q)
unfolding advance on_state on_escape
bracket_lem q h = rw h refl

-- how a sequence starts, private or not
abbrev pub opening : Bool → List ℕ
opening false = b'[' ∷ []
opening true = b'[' ∷ b'?' ∷ []

-- after the question mark, before the first byte of a parameter
abbrev asked : Parser → Parser
asked q = record (collecting true [] 0 q) { state = at_csi_private }

question_lem : (q : Parser) → advance b'?' (enter_csi q) ≡ (none, asked q)
unfolding advance on_state on_csi_entry enter_csi
question_lem q = refl

public_lem :
    (q : Parser) (d : ℕ)
    → ltb d 10 ≡ true
    → advance (b'0' + d) (enter_csi q) ≡ (none, collecting false [] (d % 2 ^ 32) q)
unfolding advance on_state on_csi_entry enter_csi
public_lem q d h =
    let other : (b'0' + d == b'?') ≡ false = ground arith in
    let here : between b'0' b'9' (b'0' + d) ≡ true = ground arith in
    let value : b'0' + d - b'0' ≡ d % 2 ^ 32 = ground arith in
    rw (other, here) (ap (λ c. (none, collecting false [] c q)) value)

private_lem :
    (q : Parser) (d : ℕ)
    → ltb d 10 ≡ true
    → advance (b'0' + d) (asked q) ≡ (none, collecting true [] (d % 2 ^ 32) q)
unfolding advance on_state on_csi_private after_question
private_lem q d h =
    let here : between b'0' b'9' (b'0' + d) ≡ true = ground arith in
    let value : with_digit 0 (b'0' + d) ≡ d % 2 ^ 32 = ground arith in
    rw here (ap (λ c. (none, collecting true [] c q)) value)

opening_lem :
    (is_private : Bool) (q : Parser) (d : ℕ) (ys : List ℕ)
    → q.state ≡ at_escape
    → ltb d 10 ≡ true
    → run (opening is_private ++ (b'0' + d) ∷ ys) q
      ≡ run ys (collecting is_private [] (d % 2 ^ 32) q)
opening_lem false q d ys e h =
    run-none b'[' _ _ _ (bracket_lem q e) ∙ run-none (b'0' + d) ys _ _ (public_lem q d h)
opening_lem true q d ys e h =
    run-none b'[' _ _ _ (bracket_lem q e)
    ∙ run-none b'?' _ _ _ (question_lem q)
    ∙ run-none (b'0' + d) ys _ _ (private_lem q d h)

-- the text of a control sequence: its first parameter, which may have no digit, the further ones, and
-- its final byte
abbrev pub csi_text : Bool → List ℕ → List (List ℕ) → ℕ → List ℕ
csi_text is_private first rest f =
    0x1b ∷ (opening is_private ++ (digits first ++ (further rest ++ f ∷ [])))

-- The numbers of the parameters; a parameter without a digit is 0. A text without parameters has none
-- where the sequence is not private, and the parameter 0 where it is.
abbrev pub read_values : Bool → List ℕ → List (List ℕ) → List ℕ
read_values false [] [] = []
read_values false [] (ds ∷ rest) = 0 ∷ numbers (ds ∷ rest)
read_values false (d ∷ first) rest = numbers ((d ∷ first) ∷ rest)
read_values true first rest = numbers (first ∷ rest)

-- where a sequence starts, after its opening
abbrev begun : Bool → Parser → Parser
begun false q = enter_csi q
begun true q = asked q

begun_lem :
    (is_private : Bool) (q : Parser) (ys : List ℕ)
    → q.state ≡ at_escape
    → run (opening is_private ++ ys) q ≡ run ys (begun is_private q)
begun_lem false q ys e = run-none b'[' ys _ _ (bracket_lem q e)
begun_lem true q ys e =
    run-none b'[' _ _ _ (bracket_lem q e) ∙ run-none b'?' ys _ _ (question_lem q)

semicolon_lem :
    (is_private : Bool) (q : Parser)
    → advance b';' (begun is_private q) ≡ (none, collecting is_private (0 ∷ []) 0 q)
unfolding advance on_state on_csi_entry on_csi_private after_question enter_csi push_param
semicolon_lem false q = refl
semicolon_lem true q = refl

-- no parameter
bare-Gives :
    (is_private : Bool) (q : Parser) (f : ℕ)
    → between 0x40 0x7e f ≡ true
    → Gives is_private (read_values is_private [] []) f (run (f ∷ []) (begun is_private q))
unfolding run advance on_state on_csi_entry on_csi_private after_question enter_csi push_param
    csi_event
bare-Gives false q f h =
    let no_mark : (f == b'?') ≡ false = ground arith in
    let no_digit : between b'0' b'9' f ≡ false = ground arith in
    let no_semicolon : (f == b';') ≡ false = ground arith in
    rw (no_mark, no_digit, no_semicolon, h) (refl, refl)
bare-Gives true q f h =
    let no_digit : between b'0' b'9' f ≡ false = ground arith in
    let no_semicolon : (f == b';') ≡ false = ground arith in
    rw (no_digit, no_semicolon, h) (refl, refl)

-- a first parameter without a digit, and further ones
empty-Gives :
    (is_private : Bool) (q : Parser) (ds : List ℕ) (rest : List (List ℕ)) (f : ℕ)
    → all_numbers (ds ∷ rest) ≡ true
    → between 0x40 0x7e f ≡ true
    → Gives is_private
        (0 ∷ numbers (ds ∷ rest))
        f
        (run (further (ds ∷ rest) ++ f ∷ []) (begun is_private q))
empty-Gives is_private q ds rest f g h =
    let here : all_digits ds ≡ true = ground arith in
    let later : all_numbers rest ≡ true = ground arith in
    let same =
      ap (λ t. run (b';' ∷ t) (begun is_private q))
        (append_assoc (digits ds) (further rest) (f ∷ []))
      ∙ run-none b';' _ _ _ (semicolon_lem is_private q)
      ∙ run-quiet (digits ds) _ _ _ (digits-collecting is_private q (0 ∷ []) 0 ds here) in
    subst (Gives is_private (0 ∷ numbers (ds ∷ rest)) f) (sym same)
      (further-Gives is_private q (0 ∷ []) (number ds) f rest h later)

-- a first parameter with a digit
digits-Gives :
    (is_private : Bool) (q : Parser) (d : ℕ) (ds : List ℕ) (rest : List (List ℕ)) (f : ℕ)
    → q.state ≡ at_escape
    → all_digits (d ∷ ds) ≡ true
    → all_numbers rest ≡ true
    → between 0x40 0x7e f ≡ true
    → Gives is_private
        (numbers ((d ∷ ds) ∷ rest))
        f
        (run (opening is_private ++ (digits (d ∷ ds) ++ (further rest ++ f ∷ []))) q)
digits-Gives is_private q d ds rest f e g gs h =
    let first : ltb d 10 ≡ true = ground arith in
    let later : all_digits ds ≡ true = ground arith in
    let plain : d ≡ 0 * 10 + d = omega arith in
    let same =
      opening_lem is_private q d _ e first
      ∙ run-quiet (digits ds) _ _ _ (digits-collecting is_private q [] d ds later) in
    let value : number_from d ds % 2 ^ 32 ≡ number (d ∷ ds) =
      ap (λ v. number_from v ds % 2 ^ 32) plain in
    subst (Gives is_private (numbers ((d ∷ ds) ∷ rest)) f)
      (sym (same ∙ ap (λ v. run (further rest ++ f ∷ []) (collecting is_private [] v q)) value))
      (further-Gives is_private q [] (number (d ∷ ds)) f rest h gs)

opened-Gives :
    (is_private : Bool) (q : Parser) (first : List ℕ) (rest : List (List ℕ)) (f : ℕ)
    → q.state ≡ at_escape
    → all_digits first ≡ true
    → all_numbers rest ≡ true
    → between 0x40 0x7e f ≡ true
    → Gives is_private
        (read_values is_private first rest)
        f
        (run (opening is_private ++ (digits first ++ (further rest ++ f ∷ []))) q)
opened-Gives is_private q [] [] f e g gs h =
    subst (Gives is_private (read_values is_private [] []) f) (sym (begun_lem is_private q _ e))
      (bare-Gives is_private q f h)
opened-Gives false q [] (ds ∷ rest) f e g gs h =
    subst (Gives false (0 ∷ numbers (ds ∷ rest)) f) (sym (begun_lem false q _ e))
      (empty-Gives false q ds rest f gs h)
opened-Gives true q [] (ds ∷ rest) f e g gs h =
    subst (Gives true (0 ∷ numbers (ds ∷ rest)) f) (sym (begun_lem true q _ e))
      (empty-Gives true q ds rest f gs h)
opened-Gives false q (d ∷ ds) rest f e g gs h = digits-Gives false q d ds rest f e g gs h
opened-Gives true q (d ∷ ds) rest f e g gs h = digits-Gives true q d ds rest f e g gs h

-- A control sequence, private or not, with any number of decimal parameters behind one another with
-- semicolons, each with any number of digits, also none, read where an escape starts over, that is in
-- the ground state or in a control sequence (not in an escape, an OSC or the choice of a character
-- set): it gives one event and leaves the parser at rest. The event has the final byte, the numbers of
-- the first 16 parameters, each as an `i32`, 0 for one without a digit and in the places behind them,
-- and their count. Without any parameter the count is 0 where the sequence is not private, and 1 where
-- it is. Nothing of what was read before is left in it.
pub run-csi_text :
    (p : Parser) (is_private : Bool) (first : List ℕ) (rest : List (List ℕ)) (f : ℕ)
    → interruptible p.state ≡ true
    → all_digits first ≡ true
    → all_numbers rest ≡ true
    → between 0x40 0x7e f ≡ true
    → Gives is_private
        (read_values is_private first rest)
        f
        (run (csi_text is_private first rest f) p)
unfolding advance
run-csi_text p is_private first rest f i g gs h =
    let (q, start, e) = escape_lem p.state p i in
    subst (Gives is_private (read_values is_private first rest) f) (sym (run-none 0x1b _ p q start))
      (opened-Gives is_private q first rest f e g gs h)
