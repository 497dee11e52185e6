-- ===== src/FilePath.antt =====
-- crates/core/path/src/lib.rs: parsing, normalising and comparing paths. A text is the list of its
-- UTF-8 bytes; no byte of a longer character is one of the separators. Lower-casing is the library's,
-- over all of Unicode, and a parameter of what uses it.
pub mod Text
pub mod Parts
pub mod Normal
pub mod Idempotent
pub mod Jail
pub mod Display
mod Tests
use mathlib.Core.List.{reverse}
use watos.Common.{
  is_nil, ℕ, zero, suc, ◌+◌, ◌-◌, ◌*◌, ◌/◌, ◌%◌, ◌^◌, ◌≤◌, ◌<◌, min, max, bit_and, bit_or, ◌≡◌,
  refl, sym, ap, ◌∙◌, ◌≢◌, ◌↔◌, ◌⊎◌, inl, inr, Bool, true, false, ◌&&◌, ◌||◌, not, Option, none,
  some, List, [], ◌∷◌, ◌++◌, map, append-nil, append_assoc, arith, ltb, leb, ◌==◌, if◌then◌else◌,
  ltb→lt, ==_iff, Bool-cases, Option-cases, length, get_elem?, get_or, set, take, drop, replicate,
  length-append, length-set, length-replicate, length-take, length-drop, take-append-drop,
  get_or-set_self, get_or-set_ne, get_or-replicate, set-out, sub_u64, add_u64,
}
use watos.FilePath.Text.{
  text_eq, starts_with, ends_with, contains, split_on, join_with, rfind, trim_end,
}

abbrev pub separator : ℕ
separator = b'/'

abbrev pub win_separator : ℕ
win_separator = 0x5c

abbrev pub max_filename : ℕ
max_filename = 255

abbrev pub dot : List ℕ
dot = b'.' ∷ []

abbrev pub dot_dot : List ℕ
dot_dot = b'.' ∷ b'.' ∷ []

abbrev pub slash : List ℕ
slash = separator ∷ []

pub data PathType : Type 0 where
  unix : PathType
  drive : ℕ → PathType

pub record ParsedPath : Type 0 where
  pub path_type : PathType
  pub path : List ℕ

unfoldable pub is_drive : ParsedPath → Bool
is_drive p = elim p.path_type [ unix ↦ false | drive c ↦ true ]

unfoldable pub drive_letter : ParsedPath → Option ℕ
drive_letter p = elim p.path_type [ unix ↦ none | drive c ↦ some c ]

-- `s.replace(from, to)` for single characters, and the `map` of `parse`
unfoldable pub replace : ℕ → ℕ → List ℕ → List ℕ
replace from to [] = []
replace from to (c ∷ cs) = (if c == from then to else c) ∷ replace from to cs

unfoldable pub display_as : Bool → List ℕ → PathType → List ℕ
display_as windows_style path unix = path
display_as windows_style path (drive letter) =
    if windows_style then letter ∷ b':' ∷ replace b'/' win_separator path else letter ∷ b':' ∷ path

unfoldable pub to_display : Bool → ParsedPath → List ℕ
unfolding display_as
to_display windows_style p = display_as windows_style p.path p.path_type

unfoldable pub is_letter : ℕ → Bool
is_letter c = (leb b'A' c && leb c b'Z') || (leb b'a' c && leb c b'z')

unfoldable pub to_ascii_uppercase : ℕ → ℕ
to_ascii_uppercase c = if leb b'a' c && leb c b'z' then c - 32 else c

unfoldable pub is_drive_letter : List ℕ → Option ℕ
unfolding is_letter to_ascii_uppercase
is_drive_letter (first ∷ second ∷ rest) =
    if second == b':' && is_letter first then some (to_ascii_uppercase first) else none
is_drive_letter _ = none

-- `components.last() == Some(&"..")`; the components stand with the last one first
unfoldable pub last_is_dot_dot : List (List ℕ) → Bool
last_is_dot_dot [] = false
last_is_dot_dot (c ∷ cs) = text_eq c dot_dot

unfoldable pub pop : List (List ℕ) → List (List ℕ)
pop [] = []
pop (c ∷ cs) = cs

-- the body of the loop of `normalize`
unfoldable pub step : Bool → List (List ℕ) → List ℕ → List (List ℕ)
unfolding last_is_dot_dot pop
step is_absolute components part =
    if is_nil part || text_eq part dot
    then components
    else if text_eq part dot_dot
    then (if not is_absolute && is_nil components
        then dot_dot ∷ components
        else if last_is_dot_dot components
        then dot_dot ∷ components
        else pop components)
    else part ∷ components

unfoldable pub run_steps : Bool → List (List ℕ) → List (List ℕ) → List (List ℕ)
run_steps is_absolute components [] = components
run_steps is_absolute components (part ∷ parts) =
    run_steps is_absolute (step is_absolute components part) parts

unfoldable pub render : Bool → List (List ℕ) → List ℕ
render true components =
    if is_nil components then slash else separator ∷ join_with separator (reverse components)
render false components =
    if is_nil components then dot else join_with separator (reverse components)

unfoldable pub normalize : List ℕ → List ℕ
unfolding render
normalize [] = dot
normalize (c ∷ cs) =
    let is_absolute = c == separator in
    render is_absolute (run_steps is_absolute [] (split_on separator (c ∷ cs)))

-- the body of the loop of `normalize_jailed`
unfoldable pub step_jailed : List (List ℕ) → List ℕ → List (List ℕ)
unfolding pop
step_jailed components part =
    if is_nil part || text_eq part dot
    then components
    else if text_eq part dot_dot
    then (if is_nil components then components else pop components)
    else part ∷ components

unfoldable pub run_jailed : List (List ℕ) → List (List ℕ) → List (List ℕ)
run_jailed components [] = components
run_jailed components (part ∷ parts) = run_jailed (step_jailed components part) parts

unfoldable pub normalize_jailed : List ℕ → List ℕ
unfolding render
normalize_jailed [] = slash
normalize_jailed (c ∷ cs) = render true (run_jailed [] (split_on separator (c ∷ cs)))

unfoldable pub parse_as : List ℕ → Option ℕ → ParsedPath
parse_as path (some letter) = record {
  path_type = drive letter;
  path = normalize_jailed (replace win_separator separator (drop 2 path));
}
parse_as path none = record {
  path_type = unix;
  path = normalize (replace win_separator separator path);
}

unfoldable pub parse : List ℕ → ParsedPath
unfolding parse_as
parse path = parse_as path (is_drive_letter path)

-- `split`: directory and file name
unfoldable pub split : List ℕ → List ℕ × List ℕ
split path =
    let normalized = trim_end separator path in
    elim (rfind separator normalized) [
      | none ↦ (dot, normalized)
      | some pos ↦
          if pos == 0
          then (slash, drop 1 normalized)
          else (take pos normalized, drop (pos + 1) normalized)
    ]

unfoldable pub parent : List ℕ → Option (List ℕ)
parent path =
    let trimmed = trim_end separator path in
    if is_nil trimmed || text_eq trimmed slash then none else elim (rfind separator trimmed) [
      | none ↦ some dot
      | some pos ↦ if pos == 0 then some slash else some (take pos trimmed)
    ]

unfoldable pub filename : List ℕ → Option (List ℕ)
filename path =
    let trimmed = trim_end separator path in
    if is_nil trimmed || text_eq trimmed slash then none else elim (rfind separator trimmed) [
      | none ↦ some trimmed
      | some pos ↦ some (drop (pos + 1) trimmed)
    ]

unfoldable pub after_dot : List ℕ → Option ℕ → Option (List ℕ)
after_dot name none = none
after_dot name (some pos) = if pos == 0 then none else some (drop (pos + 1) name)

unfoldable pub extension : List ℕ → Option (List ℕ)
unfolding after_dot
extension path = elim (filename path) [ none ↦ none | some name ↦ after_dot name (rfind b'.' name) ]

abbrev pub is_some {ℓ} : {A : Type ℓ} → Option A → Bool
is_some none = false
is_some (some a) = true

unfoldable pub join : List ℕ → List ℕ → List ℕ
join base component =
    if starts_with separator component || is_some (is_drive_letter component)
    then component
    else if is_nil base || text_eq base dot
    then component
    else if ends_with separator base
    then base ++ component
    else base ++ separator ∷ component

unfoldable pub is_valid_name : List ℕ → Bool
is_valid_name name =
    not (is_nil name)
    && not (text_eq name dot)
    && not (text_eq name dot_dot)
    && not (contains separator name)
    && not (contains win_separator name)
    && not (contains 0 name)
    && leb (length name) max_filename

-- `path.split('/').filter(|s| !s.is_empty())`
unfoldable pub keep_parts : List (List ℕ) → List (List ℕ)
keep_parts [] = []
keep_parts (p ∷ ps) = if is_nil p then keep_parts ps else p ∷ keep_parts ps

unfoldable pub components : List ℕ → List (List ℕ)
unfolding keep_parts
components path = keep_parts (split_on separator path)

unfoldable pub is_absolute : List ℕ → Bool
is_absolute path = starts_with separator path || is_some (is_drive_letter path)

unfoldable pub is_relative : List ℕ → Bool
is_relative path = not (is_absolute path)

unfoldable pub same_type : PathType → PathType → Bool
same_type unix unix = true
same_type (drive a) (drive b) = a == b
same_type _ _ = false

module _ (to_lowercase : List ℕ → List ℕ) where
  unfoldable pub filenames_equal : List ℕ → List ℕ → Bool → Bool
  filenames_equal a b case_insensitive =
      if case_insensitive then text_eq (to_lowercase a) (to_lowercase b) else text_eq a b

  unfoldable pub paths_equal : List ℕ → List ℕ → Bool → Bool
  paths_equal a b case_insensitive =
      if not (same_type (parse a).path_type (parse b).path_type)
      then false
      else if case_insensitive
      then text_eq (to_lowercase (parse a).path) (to_lowercase (parse b).path)
      else text_eq (parse a).path (parse b).path
