-- ===== src/Terminal/Parser/Bounds/Runs.antt =====
-- Every step keeps the bounds, and so does every text.
use watos.Common.{
  ℕ, ◌+◌, ◌-◌, ◌^◌, ◌≤◌, ◌<◌, ◌≡◌, refl, Bool, true, false, ◌&&◌, ◌||◌, Option, none, some, List,
  [], ◌∷◌, arith, ltb, leb, ◌==◌, if◌then◌else◌,
}
use watos.Terminal.Parser.{
  is_command, max_osc_len, State, at_ground, at_escape, at_csi_entry, at_csi_param, at_csi_private,
  at_osc_string, at_charset_select, Event, Parser, new, between, on_ground, on_escape, on_csi_entry,
  with_digit, on_csi_param, after_question, on_csi_private, osc_content, on_osc_string,
  on_charset_select, on_state, advance, with_event, run,
}
use watos.Terminal.Parser.Bounds.{
  WellFormed, AnswersIf, AnswersAll, Steps, ends, push_param-WellFormed, csi_event-Steps, if-Steps,
  moved, at_rest, to_escape, enter_csi-WellFormed, enter_osc-WellFormed, begun,
}

on_ground-Steps : (b : ℕ) (p : Parser) → WellFormed p → Steps (on_ground b p)
unfolding on_ground
on_ground-Steps b p w =
    if-Steps (leb b 0x1f) (λ _. if-Steps (b == 0x1b) (λ _. to_escape p w) (λ _. ends tt w))
      (λ _.
        if-Steps (leb b 0x7e) (λ _. ends tt w)
          (λ _.
            if-Steps (b == 0x7f) (λ _. ends tt w)
              (λ _.
                if-Steps (leb b 0x9f)
                  (λ _.
                    if-Steps (b == 0x9b) (λ _. ends tt (enter_csi-WellFormed p w))
                      (λ _.
                        if-Steps (b == 0x9d) (λ _. ends tt (enter_osc-WellFormed p w))
                          (λ _. ends tt w)))
                  (λ _. ends tt w))))

on_escape-Steps : (b : ℕ) (p : Parser) → WellFormed p → Steps (on_escape b p)
unfolding on_escape
on_escape-Steps b p w =
    if-Steps (b == b'[') (λ _. ends tt (enter_csi-WellFormed p w))
      (λ _.
        if-Steps (b == b']') (λ _. ends tt (enter_osc-WellFormed p w))
          (λ _.
            if-Steps (b == b'(' || b == b')')
              (λ _. ends tt record {
                places = w.places;
                counted = w.counted;
                short = λ e. cc;
                digit = w.digit;
                word = w.word;
              })
              (λ _.
                if-Steps (is_command b) (λ _. ends tt (moved at_ground p (λ e. cc) w))
                  (λ _. at_rest p w))))

-- the parser with another private flag, or another intermediate byte
marked :
    (flag : Bool) (byte : ℕ) (p : Parser)
    → WellFormed p
    → WellFormed (record p { private = flag; intermediate = byte })
marked flag byte p w = record {
  places = w.places;
  counted = w.counted;
  short = w.short;
  digit = w.digit;
  word = w.word;
}

on_csi_entry-Steps : (b : ℕ) (p : Parser) → WellFormed p → Steps (on_csi_entry b p)
unfolding on_csi_entry
on_csi_entry-Steps b p w =
    if-Steps (b == b'?')
      (λ _. ends tt (moved at_csi_private _ (λ e. cc) (marked true p.intermediate p w)))
      (λ _.
        if-Steps (between b'0' b'9' b)
          (λ h. ends tt (begun at_csi_param (b - b'0') p (λ e. cc) (ground arith) w))
          (λ _.
            if-Steps (b == b';')
              (λ _. ends tt (moved at_csi_param _ (λ e. cc) (push_param-WellFormed 0 p w)))
              (λ _.
                if-Steps (between 0x40 0x7e b) (λ _. csi_event-Steps b false p w)
                  (λ _.
                    if-Steps (between 0x20 0x2f b) (λ _. ends tt (marked p.private b p w))
                      (λ _.
                        if-Steps (b == 0x18 || b == 0x1a) (λ _. at_rest p w)
                          (λ _. if-Steps (b == 0x1b) (λ _. to_escape p w) (λ _. ends tt w)))))))

counting :
    (v : ℕ) (p : Parser) → v < 2 ^ 32 → WellFormed p → WellFormed (record p { current_param = v })
counting v p g w = record {
  places = w.places;
  counted = w.counted;
  short = w.short;
  digit = w.digit;
  word = g;
}

with_digit-lt : (v b : ℕ) → with_digit v b < 2 ^ 32
with_digit-lt v b = omega arith

-- what both ways to read parameters end with
ending-Steps :
    (b : ℕ) {x : Option Event × Parser} (p : Parser)
    → WellFormed p
    → Steps x
    → Steps (
        if b == 0x18 || b == 0x1a
        then (none, record p { state = at_ground })
        else if b == 0x1b
        then (none, record p { state = at_escape })
        else x)
ending-Steps b p w h =
    if-Steps (b == 0x18 || b == 0x1a) (λ _. at_rest p w)
      (λ _. if-Steps (b == 0x1b) (λ _. to_escape p w) (λ _. h))

on_csi_param-Steps : (b : ℕ) (p : Parser) → WellFormed p → Steps (on_csi_param b p)
unfolding on_csi_param
on_csi_param-Steps b p w =
    let pushed = push_param-WellFormed p.current_param p w in
    if-Steps (between b'0' b'9' b) (λ _. ends tt (counting _ p (with_digit-lt p.current_param b) w))
      (λ _.
        if-Steps (b == b';') (λ _. ends tt (counting 0 _ (omega arith) pushed))
          (λ _.
            if-Steps (between 0x40 0x7e b) (λ _. csi_event-Steps b p.private _ pushed)
              (λ _.
                if-Steps (between 0x20 0x2f b) (λ _. ends tt (marked p.private b p w))
                  (λ _. ending-Steps b p w (ends tt w)))))

after_question-Steps : (b : ℕ) (p : Parser) → WellFormed p → Steps (after_question b p)
unfolding after_question
after_question-Steps b p w =
    let pushed = push_param-WellFormed p.current_param p w in
    if-Steps (between b'0' b'9' b)
      (λ _. ends tt (begun at_csi_param _ p (λ e. cc) (with_digit-lt p.current_param b) w))
      (λ _.
        if-Steps (b == b';') (λ _. ends tt (begun at_csi_param 0 _ (λ e. cc) (omega arith) pushed))
          (λ _.
            if-Steps (between 0x40 0x7e b) (λ _. csi_event-Steps b true _ pushed)
              (λ _. ending-Steps b p w (ends tt (moved at_csi_param p (λ e. cc) w)))))

short_lem :
    (c : Bool) (n : ℕ) (st : State)
    → ltb max_osc_len n ≡ c
    → (if c then at_ground else st) ≡ at_osc_string
    → n ≤ max_osc_len
short_lem true n st h e = cc
short_lem false n st h e = ground arith

osc_content-WellFormed : (p : Parser) → WellFormed p → WellFormed (osc_content p)
unfolding osc_content
osc_content-WellFormed p w = record {
  places = w.places;
  counted = w.counted;
  short = short_lem _ (p.osc_len + 1) p.state refl;
  digit = w.digit;
  word = w.word;
}

on_osc_string-Steps :
    (b : ℕ) (p : Parser) → p.state ≡ at_osc_string → WellFormed p → Steps (on_osc_string b p)
unfolding on_osc_string
on_osc_string-Steps b p h w =
    if-Steps (b == 0x07 || b == 0x1b || b == 0x9c) (λ _. ends tt (moved at_ground p (λ e. cc) w))
      (λ _.
        if-Steps (between b'0' b'9' b && p.osc_len == 0)
          (λ g. ends tt record {
            places = w.places;
            counted = w.counted;
            short = λ e. ground arith;
            digit = ground arith;
            word = w.word;
          })
          (λ _. ends tt (osc_content-WellFormed p w)))

on_state-Steps :
    (st : State) (b : ℕ) (p : Parser) → p.state ≡ st → WellFormed p → Steps (on_state st b p)
unfolding on_state on_csi_private on_charset_select
on_state-Steps at_ground b p e w = on_ground-Steps b p w
on_state-Steps at_escape b p e w = on_escape-Steps b p w
on_state-Steps at_csi_entry b p e w = on_csi_entry-Steps b p w
on_state-Steps at_csi_param b p e w = on_csi_param-Steps b p w
on_state-Steps at_csi_private b p e w = after_question-Steps b _ (marked true p.intermediate p w)
on_state-Steps at_osc_string b p e w = on_osc_string-Steps b p e w
on_state-Steps at_charset_select b p e w = ends tt (moved at_ground p (λ e. cc) w)

pub new-WellFormed : WellFormed new
unfolding new
new-WellFormed = record {
  places = refl;
  counted = omega arith;
  short = λ e. omega arith;
  digit = omega arith;
  word = omega arith;
}

with_event-AnswersAll :
    (e : Option Event) (es : List Event)
    → AnswersIf e
    → AnswersAll es
    → AnswersAll (with_event e es)
with_event-AnswersAll none es a h = h
with_event-AnswersAll (some e) es a h = (a, h)

-- Whatever bytes a well-formed parser is given, it stays well-formed: the array of parameters has its
-- 16 places, the count is at most 16, an OSC that is being read has at most 256 bytes. For each control
-- sequence that it reports, every parameter can be asked for, at any index: `csi_param` does not panic.
pub run-AnswersAll :
    (bs : List ℕ) (p : Parser) → WellFormed p → AnswersAll (run bs p).0 × WellFormed (run bs p).1
unfolding run advance
run-AnswersAll [] p w = (tt, w)
run-AnswersAll (b ∷ bs) p w =
    let step = on_state-Steps p.state b p refl w in
    let (later, end) = run-AnswersAll bs (advance b p).1 step.well in
    (with_event-AnswersAll (advance b p).0 (run bs (advance b p).1).0 step.answers later, end)
