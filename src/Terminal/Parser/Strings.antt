-- ===== src/Terminal/Parser/Strings.antt =====
-- OSC strings: what ends them, and what becomes of the byte after an escape that ends one.
use watos.Common.{
  ℕ, ◌+◌, ◌-◌, ◌≤◌, ◌<◌, ◌≡◌, refl, ap, ◌∙◌, inl, inr, Bool, true, false, ◌&&◌, ◌||◌, not, none,
  List, [], ◌∷◌, ◌++◌, arith, ltb, ◌==◌, Bool-cases, length,
}
use watos.Terminal.Parser.{
  at_escape, at_osc_string, Event, print, osc, Parser, between, on_ground, on_escape, enter_osc,
  osc_content, max_osc_len, on_osc_string, on_state, advance, run,
}
use watos.Terminal.Parser.Collecting.{run-none}
use watos.Terminal.Parser.Sequences.{interruptible, escape_lem}

-- a byte that does not end an OSC
abbrev pub is_content : ℕ → Bool
is_content byte = not (byte == 0x07 || byte == 0x1b || byte == 0x9c)

abbrev pub all_content : List ℕ → Bool
all_content [] = true
all_content (b ∷ bs) = is_content b && all_content bs

-- `p` in an OSC of command `command`, with `len` bytes read
abbrev within : ℕ → ℕ → Parser → Parser
within command len p = record p { state = at_osc_string; osc_cmd = command; osc_len = len }

content_lem :
    (command len b : ℕ) (p : Parser)
    → is_content b ≡ true
    → 0 < len
    → len < max_osc_len
    → advance b (within command len p) ≡ (none, within command (len + 1) p)
unfolding advance on_state on_osc_string osc_content
content_lem command len b p h pos room =
    let on : (b == 0x07 || b == 0x1b || b == 0x9c) ≡ false = ground arith in
    let started : (len == 0) ≡ false = ground arith in
    let fits : ltb 256 (len + 1) ≡ false = ground arith in
    elim (Bool-cases (between b'0' b'9' b)) [
      | inl t ↦ rw (on, t, started, fits) refl
      | inr f ↦ rw (on, f, fits) refl
    ]

contents_lem :
    (command len : ℕ) (bs ys : List ℕ) (p : Parser)
    → all_content bs ≡ true
    → 0 < len
    → len + length bs ≤ max_osc_len
    → run (bs ++ ys) (within command len p) ≡ run ys (within command (len + length bs) p)
contents_lem command len [] ys p h pos room = ap (λ n. run ys (within command n p)) (omega arith)
contents_lem command len (b ∷ bs) ys p h pos room =
    let here : is_content b ≡ true = ground arith in
    let later : all_content bs ≡ true = ground arith in
    run-none b _ _ _ (content_lem command len b p here pos (omega arith))
    ∙ contents_lem command (len + 1) bs ys p later (omega arith) (omega arith)
    ∙ ap (λ n. run ys (within command n p)) (omega arith)

-- the text of an OSC, up to its end
abbrev pub osc_text : ℕ → List ℕ → List ℕ
osc_text d content = 0x1b ∷ b']' ∷ (b'0' + d) ∷ content

start_lem : (q : Parser) → q.state ≡ at_escape → advance b']' q ≡ (none, within 0 0 q)
unfolding advance on_state on_escape enter_osc
start_lem q h = rw h refl

command_lem :
    (q : Parser) (d : ℕ)
    → ltb d 10 ≡ true
    → advance (b'0' + d) (within 0 0 q) ≡ (none, within d 1 q)
unfolding advance on_state on_osc_string
command_lem q d h =
    let on : ((b'0' + d) == 0x07 || (b'0' + d) == 0x1b || (b'0' + d) == 0x9c) ≡ false =
      ground arith in
    let here : between b'0' b'9' (b'0' + d) ≡ true = ground arith in
    let value : b'0' + d - b'0' ≡ d = omega arith in rw (on, here, value) refl

osc_lem :
    (p : Parser) (d : ℕ) (content ys : List ℕ)
    → interruptible p.state ≡ true
    → ltb d 10 ≡ true
    → all_content content ≡ true
    → length content < max_osc_len
    → (q : Parser) × (run (osc_text d content ++ ys) p ≡ run ys (within d (1 + length content) q))
unfolding advance
osc_lem p d content ys i h g room =
    let (q, start, e) = escape_lem p.state p i in
    (
      q,
      run-none 0x1b _ p q start
          ∙ run-none b']' _ _ _ (start_lem q e)
          ∙ run-none (b'0' + d) _ _ _ (command_lem q d h)
          ∙ contents_lem d 1 content ys q g (omega arith) (omega arith),
    )

-- An OSC of a command of one digit with a content of less than 256 bytes that has no terminator, read
-- where an escape starts over, that is in the ground state or in a control sequence (not in an escape,
-- an OSC or the choice of a character set), gives one event, with the command. Where BEL ends it, that
-- is all. Where ESC and a backslash end it, the ESC ends it and the backslash is printed.
pub run-osc_text :
    (p : Parser) (d : ℕ) (content : List ℕ)
    → interruptible p.state ≡ true
    → ltb d 10 ≡ true
    → all_content content ≡ true
    → length content < max_osc_len
    → ((run (osc_text d content ++ 0x07 ∷ []) p).0 ≡ osc d ∷ [])
      × ((run (osc_text d content ++ 0x1b ∷ b'\\' ∷ []) p).0 ≡ osc d ∷ print b'\\' ∷ [])
unfolding run advance on_state on_osc_string on_ground
run-osc_text p d content i h g room = (
  ap (λ (r : List Event × Parser). r.0) (osc_lem p d content (0x07 ∷ []) i h g room).1,
  ap (λ (r : List Event × Parser). r.0) (osc_lem p d content (0x1b ∷ b'\\' ∷ []) i h g room).1,
)
