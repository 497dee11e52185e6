-- ===== src/Terminal/Parser.antt =====
-- crates/sys/terminal/src/parser.rs: `Parser`, a state machine over bytes that gives events. An `i32` is
-- its bit pattern, a number below 2^32. The array of parameters is a list of 16 numbers.
pub mod Bounds
pub mod Collecting
pub mod Sequences
pub mod Strings
pub mod Tests
use watos.Common.{
  ℕ, zero, suc, ◌+◌, ◌-◌, ◌*◌, ◌/◌, ◌%◌, ◌^◌, ◌≤◌, ◌<◌, min, max, bit_and, bit_or, ◌≡◌, refl, sym,
  ap, ◌∙◌, ◌≢◌, ◌↔◌, ◌⊎◌, inl, inr, Bool, true, false, ◌&&◌, ◌||◌, not, Option, none, some, List,
  [], ◌∷◌, ◌++◌, map, append-nil, append_assoc, arith, ltb, leb, ◌==◌, if◌then◌else◌, ltb→lt,
  ==_iff, Bool-cases, Option-cases, length, get_elem?, get_or, set, take, drop, replicate,
  length-append, length-set, length-replicate, length-take, length-drop, take-append-drop,
  get_or-set_self, get_or-set_ne, get_or-replicate, set-out, sub_u64, add_u64, is_nil, ◌>>=◌,
}

abbrev pub max_params : ℕ
max_params = 16

abbrev pub max_osc_len : ℕ
max_osc_len = 256

pub data State : Type 0 where
  at_ground at_escape at_csi_entry at_csi_param at_csi_private at_osc_string at_charset_select :
      State

pub data Event : Type 0 where
  print : ℕ → Event
  execute : ℕ → Event
  csi : (params : List ℕ) (param_count intermediate final_byte : ℕ) (is_private : Bool) → Event
  osc : (command : ℕ) → Event
  esc_dispatch : ℕ → Event
  charset : (slot selected : ℕ) → Event

pub record Parser : Type 0 where
  pub state : State
  pub params : List ℕ
  pub param_count : ℕ
  pub current_param : ℕ
  pub intermediate : ℕ
  pub private : Bool
  pub charset_slot : ℕ
  pub osc_cmd : ℕ
  pub osc_len : ℕ

unfoldable pub new : Parser
new = record {
  state = at_ground;
  params = replicate max_params 0;
  param_count = 0;
  current_param = 0;
  intermediate = 0;
  private = false;
  charset_slot = 0;
  osc_cmd = 0;
  osc_len = 0;
}

unfoldable pub reset : Parser → Parser
reset p = record p {
  state = at_ground;
  params = replicate max_params 0;
  param_count = 0;
  current_param = 0;
  intermediate = 0;
  private = false;
}

abbrev pub between : ℕ → ℕ → ℕ → Bool
between low high byte = leb low byte && leb byte high

unfoldable pub enter_csi : Parser → Parser
enter_csi p = record p {
  state = at_csi_entry;
  params = replicate max_params 0;
  param_count = 0;
  current_param = 0;
  intermediate = 0;
  private = false;
}

-- what an OSC starts with
unfoldable pub enter_osc : Parser → Parser
enter_osc p = record p { state = at_osc_string; osc_cmd = 0; osc_len = 0 }

unfoldable pub on_ground : ℕ → Parser → Option Event × Parser
unfolding enter_csi enter_osc
on_ground byte p =
    if leb byte 0x1f
    then (if byte == 0x1b then (none, record p { state = at_escape }) else (some (execute byte), p))
    else if leb byte 0x7e
    then (some (print byte), p)
    else if byte == 0x7f
    then (none, p)
    else if leb byte 0x9f
    then (if byte == 0x9b
        then (none, enter_csi p)
        else if byte == 0x9d
        then (none, enter_osc p)
        else (some (execute byte), p))
    else (some (print byte), p)

-- the commands of one character after an escape
abbrev pub is_command : ℕ → Bool
is_command byte =
    byte == b'7'
    || byte == b'8'
    || byte == b'='
    || byte == b'>'
    || byte == b'c'
    || byte == b'D'
    || byte == b'E'
    || byte == b'H'
    || byte == b'M'
    || byte == b'Z'

unfoldable pub on_escape : ℕ → Parser → Option Event × Parser
unfolding enter_csi enter_osc
on_escape byte p =
    if byte == b'['
    then (none, enter_csi p)
    else if byte == b']'
    then (none, enter_osc p)
    else if byte == b'(' || byte == b')'
    then (none, record p { state = at_charset_select; charset_slot = byte })
    else if is_command byte
    then (some (esc_dispatch byte), record p { state = at_ground })
    else (none, record p { state = at_ground })

-- a parameter is stored while there is room
unfoldable pub push_param : ℕ → Parser → Parser
push_param value p =
    if ltb p.param_count max_params
    then record p { params = set p.params p.param_count value; param_count = p.param_count + 1 }
    else p

-- the event of a sequence that ends with `byte`
unfoldable pub csi_event : ℕ → Bool → Parser → Option Event × Parser
csi_event byte is_private p = (
  some (csi p.params p.param_count p.intermediate byte is_private),
  record p { state = at_ground },
)

unfoldable pub on_csi_entry : ℕ → Parser → Option Event × Parser
unfolding push_param csi_event
on_csi_entry byte p =
    if byte == b'?'
    then (none, record p { private = true; state = at_csi_private })
    else if between b'0' b'9' byte
    then (none, record p { current_param = byte - b'0'; state = at_csi_param })
    else if byte == b';'
    then (none, record (push_param 0 p) { state = at_csi_param })
    else if between 0x40 0x7e byte
    then csi_event byte false p
    else if between 0x20 0x2f byte
    then (none, record p { intermediate = byte })
    else if byte == 0x18 || byte == 0x1a
    then (none, record p { state = at_ground })
    else if byte == 0x1b
    then (none, record p { state = at_escape })
    else (none, p)

-- the parameter with a digit more
abbrev pub with_digit : ℕ → ℕ → ℕ
with_digit value byte = (value * 10 + (byte - b'0')) % 2 ^ 32

unfoldable pub on_csi_param : ℕ → Parser → Option Event × Parser
unfolding push_param csi_event
on_csi_param byte p =
    if between b'0' b'9' byte
    then (none, record p { current_param = with_digit p.current_param byte })
    else if byte == b';'
    then (none, record (push_param p.current_param p) { current_param = 0 })
    else if between 0x40 0x7e byte
    then csi_event byte p.private (push_param p.current_param p)
    else if between 0x20 0x2f byte
    then (none, record p { intermediate = byte })
    else if byte == 0x18 || byte == 0x1a
    then (none, record p { state = at_ground })
    else if byte == 0x1b
    then (none, record p { state = at_escape })
    else (none, p)

-- `csi_private`, past the line that sets the flag
unfoldable pub after_question : ℕ → Parser → Option Event × Parser
unfolding push_param csi_event
after_question byte p =
    if between b'0' b'9' byte
    then (none, record p { current_param = with_digit p.current_param byte; state = at_csi_param })
    else if byte == b';'
    then (none, record (push_param p.current_param p) { current_param = 0; state = at_csi_param })
    else if between 0x40 0x7e byte
    then csi_event byte true (push_param p.current_param p)
    else if byte == 0x18 || byte == 0x1a
    then (none, record p { state = at_ground })
    else if byte == 0x1b
    then (none, record p { state = at_escape })
    else (none, record p { state = at_csi_param })

unfoldable pub on_csi_private : ℕ → Parser → Option Event × Parser
unfolding after_question
on_csi_private byte p = after_question byte (record p { private = true })

-- the string goes on: its content is dropped, up to a limit
unfoldable pub osc_content : Parser → Parser
osc_content p = record p {
  osc_len = p.osc_len + 1;
  state = if ltb max_osc_len (p.osc_len + 1) then at_ground else p.state;
}

unfoldable pub on_osc_string : ℕ → Parser → Option Event × Parser
unfolding osc_content
on_osc_string byte p =
    if byte == 0x07 || byte == 0x1b || byte == 0x9c
    then (some (osc p.osc_cmd), record p { state = at_ground })
    else if between b'0' b'9' byte && p.osc_len == 0
    then (none, record p { osc_cmd = byte - b'0'; osc_len = p.osc_len + 1 })
    else (none, osc_content p)

unfoldable pub on_charset_select : ℕ → Parser → Option Event × Parser
on_charset_select byte p = (some (charset p.charset_slot byte), record p { state = at_ground })

unfoldable pub on_state : State → ℕ → Parser → Option Event × Parser
unfolding on_ground on_escape on_csi_entry on_csi_param on_csi_private on_osc_string
    on_charset_select
on_state at_ground = on_ground
on_state at_escape = on_escape
on_state at_csi_entry = on_csi_entry
on_state at_csi_param = on_csi_param
on_state at_csi_private = on_csi_private
on_state at_osc_string = on_osc_string
on_state at_charset_select = on_charset_select

unfoldable pub advance : ℕ → Parser → Option Event × Parser
unfolding on_state
advance byte p = on_state p.state byte p

-- A parameter of a sequence, or the default where it is missing or 0; `none` is an index that is out of
-- bounds.
unfoldable pub csi_param : List ℕ → ℕ → ℕ → ℕ → Option ℕ
csi_param params count index default =
    if ltb index count
    then (get_elem? params index >>= λ value. some (if value == 0 then default else value))
    else some default

-- the event, if there is one, before those that follow
abbrev pub with_event : Option Event → List Event → List Event
with_event none es = es
with_event (some e) es = e ∷ es

-- the events of a text, and the parser after it
unfoldable pub run : List ℕ → Parser → List Event × Parser
unfolding advance
run [] p = ([], p)
run (b ∷ bs) p =
    let (event, p') = advance b p in let (events, q) = run bs p' in (with_event event events, q)
