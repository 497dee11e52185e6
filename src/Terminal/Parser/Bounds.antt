-- ===== src/Terminal/Parser/Bounds.antt =====
-- What holds of the parser whatever bytes it is given, so that no index is out of bounds.
pub mod Runs
use watos.Common.{
  ℕ, zero, suc, ◌+◌, ◌-◌, ◌^◌, ◌≤◌, ◌<◌, ◌≡◌, refl, ◌∙◌, ◌≢◌, inl, inr, Bool, true, false, ◌&&◌,
  ◌||◌, Option, none, some, List, [], ◌∷◌, arith, ltb, leb, ◌==◌, if◌then◌else◌, Bool-cases, length,
  get_elem?, length-set,
}
use watos.Terminal.Parser.{
  is_command, max_params, max_osc_len, State, at_ground, at_escape, at_csi_entry, at_csi_param,
  at_csi_private, at_osc_string, at_charset_select, Event, print, execute, csi, osc, esc_dispatch,
  charset, Parser, new, between, enter_csi, enter_osc, on_ground, on_escape, push_param, csi_event,
  on_csi_entry, with_digit, on_csi_param, after_question, on_csi_private, osc_content,
  on_osc_string, on_charset_select, on_state, advance, with_event, run, csi_param,
}

-- The array has its 16 places, the count is within it, and a string is within its limit while it is read.
pub record WellFormed (p : Parser) : Type 0 where
  pub places : length p.params ≡ max_params
  pub counted : p.param_count ≤ max_params
  pub short : p.state ≡ at_osc_string → p.osc_len ≤ max_osc_len
  pub digit : p.osc_cmd < 10
  pub word : p.current_param < 2 ^ 32

-- Every parameter of the sequence can be asked for, in bounds.
abbrev pub Answers : Event → Type 0
Answers (csi params count intermediate final_byte is_private) =
    (index default : ℕ) → (value : ℕ) × (csi_param params count index default ≡ some value)
Answers (print c) = Unit {0}
Answers (execute b) = Unit {0}
Answers (osc c) = Unit {0}
Answers (esc_dispatch b) = Unit {0}
Answers (charset s c) = Unit {0}

abbrev pub AnswersIf : Option Event → Type 0
AnswersIf none = Unit {0}
AnswersIf (some e) = Answers e

abbrev pub AnswersAll : List Event → Type 0
AnswersAll [] = Unit {0}
AnswersAll (e ∷ es) = Answers e × AnswersAll es

-- what a step leaves
pub record Steps (r : Option Event × Parser) : Type 0 where
  pub answers : AnswersIf r.0
  pub well : WellFormed r.1

pub ends : {e : Option Event} {p : Parser} → AnswersIf e → WellFormed p → Steps (e, p)
ends a w = record { answers = a; well = w }

get_elem?-some : (xs : List ℕ) (i : ℕ) → i < length xs → (v : ℕ) × (get_elem? xs i ≡ some v)
get_elem?-some [] i h = absurd (omega arith)
get_elem?-some (x ∷ xs) zero h = (x, refl)
get_elem?-some (x ∷ xs) (suc i) h = get_elem?-some xs i (omega arith)

csi_param-some :
    (params : List ℕ) (count index default : ℕ)
    → length params ≡ max_params
    → count ≤ max_params
    → (value : ℕ) × (csi_param params count index default ≡ some value)
unfolding csi_param
csi_param-some params count index default h g = elim (Bool-cases (ltb index count)) [
  | inr f ↦ rw f (default, refl)
  | inl t ↦
      let (v, e) = get_elem?-some params index (ground arith) in
      rw (t, e) (if v == 0 then default else v, refl)
]

pub push_param-WellFormed : (v : ℕ) (p : Parser) → WellFormed p → WellFormed (push_param v p)
unfolding push_param
push_param-WellFormed v p w = elim (Bool-cases (ltb p.param_count max_params)) [
  | inl t ↦ rw t record {
    places = length-set p.params p.param_count v ∙ w.places;
    counted = ground arith;
    short = w.short;
    digit = w.digit;
    word = w.word;
  }
  | inr f ↦ rw f w
]

pub csi_event-Steps :
    (b : ℕ) (is_private : Bool) (p : Parser) → WellFormed p → Steps (csi_event b is_private p)
unfolding csi_event
csi_event-Steps b is_private p w =
    ends (λ index default. csi_param-some p.params p.param_count index default w.places w.counted)
      record {
        places = w.places;
        counted = w.counted;
        short = λ e. cc;
        digit = w.digit;
        word = w.word;
      }

pub if-Steps :
    (c : Bool) {x y : Option Event × Parser}
    → (c ≡ true → Steps x)
    → (c ≡ false → Steps y)
    → Steps (if c then x else y)
if-Steps true h k = h refl
if-Steps false h k = k refl

-- the same parser in another state, in no string
pub moved :
    (st : State) (p : Parser)
    → (st ≡ at_osc_string → p.osc_len ≤ max_osc_len)
    → WellFormed p
    → WellFormed (record p { state = st })
moved st p h w = record {
  places = w.places;
  counted = w.counted;
  short = h;
  digit = w.digit;
  word = w.word;
}

pub at_rest : (p : Parser) → WellFormed p → Steps (none, record p { state = at_ground })
at_rest p w = ends tt (moved at_ground p (λ e. cc) w)

pub to_escape : (p : Parser) → WellFormed p → Steps (none, record p { state = at_escape })
to_escape p w = ends tt (moved at_escape p (λ e. cc) w)

pub enter_csi-WellFormed : (p : Parser) → WellFormed p → WellFormed (enter_csi p)
unfolding enter_csi
enter_csi-WellFormed p w = record {
  places = refl;
  counted = omega arith;
  short = λ e. cc;
  digit = w.digit;
  word = omega arith;
}

pub enter_osc-WellFormed : (p : Parser) → WellFormed p → WellFormed (enter_osc p)
unfolding enter_osc
enter_osc-WellFormed p w = record {
  places = w.places;
  counted = w.counted;
  short = λ e. omega arith;
  digit = omega arith;
  word = w.word;
}

-- the parser with another parameter begun, in a state that is not a string
pub begun :
    (st : State) (v : ℕ) (p : Parser)
    → st ≢ at_osc_string
    → v < 2 ^ 32
    → WellFormed p
    → WellFormed (record p { current_param = v; state = st })
begun st v p h g w = record {
  places = w.places;
  counted = w.counted;
  short = λ e. absurd (h e);
  digit = w.digit;
  word = g;
}
