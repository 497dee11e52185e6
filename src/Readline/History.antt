-- ===== src/Readline/History.antt =====
-- crates/sys/readline/src/history.rs: the lines typed before, the walk through them, and the search.
-- A line is the list of its characters. `none` is a panic: an index out of bounds. `str::trim` and
-- `str::contains` are the library's, and parameters of what uses them.
pub mod Kept
pub mod Searches
pub mod Runs
pub mod Walk
mod Tests
use watos.Common.{
  is_nil, ℕ, zero, suc, ◌+◌, ◌-◌, ◌*◌, ◌/◌, ◌%◌, ◌^◌, ◌≤◌, ◌<◌, min, max, bit_and, bit_or, ◌≡◌,
  refl, sym, ap, ◌∙◌, ◌≢◌, ◌↔◌, ◌⊎◌, inl, inr, Bool, true, false, ◌&&◌, ◌||◌, not, Option, none,
  some, List, [], ◌∷◌, ◌++◌, map, append-nil, append_assoc, arith, ltb, leb, ◌==◌, if◌then◌else◌,
  ltb→lt, ==_iff, Bool-cases, Option-cases, length, get_elem?, get_or, set, take, drop, replicate,
  length-append, length-set, length-replicate, length-take, length-drop, take-append-drop,
  get_or-set_self, get_or-set_ne, get_or-replicate, set-out, sub_u64, add_u64,
}
use watos.FilePath.Text.{text_eq}
use watos.Readline.Buffer.{◌>>=◌}

-- `entries` stand with the oldest one first
pub record History : Type 0 where
  pub entries : List (List ℕ)
  pub max_size : ℕ
  pub position : ℕ
  pub current_edit : List ℕ
  pub navigating : Bool

abbrev pub new : ℕ → History
new max_size = record {
  entries = [];
  max_size = max_size;
  position = 0;
  current_edit = [];
  navigating = false;
}

unfoldable pub reset_position : History → History
reset_position h = record h { position = 0; navigating = false; current_edit = [] }

-- whether the most recent entry is `line`
unfoldable pub is_last : List ℕ → List (List ℕ) → Bool
is_last line [] = false
is_last line (e ∷ []) = text_eq e line
is_last line (e ∷ f ∷ es) = is_last line (f ∷ es)

unfoldable pub clear : History → History
unfolding reset_position
clear h = reset_position (record h { entries = [] })

unfoldable pub start_navigation : List ℕ → History → History
start_navigation current h =
    if not h.navigating
    then record h { current_edit = current; navigating = true; position = 0 }
    else h

-- the entry at a position, 1 being the most recent; the subtraction of a position past the oldest
-- entry wraps, and the index is out of bounds
unfoldable pub entry_at : History → ℕ → Option (List ℕ)
entry_at h pos =
    if leb pos (length h.entries) then get_elem? h.entries (length h.entries - pos) else none

-- the line that is found, if any, and the history
unfoldable pub prev : List ℕ → History → Option (Option (List ℕ) × History)
unfolding start_navigation entry_at
prev current h = if is_nil h.entries then some (none, h) else do
  let started = start_navigation current h
  let moved : History = record started { position = started.position + 1 }
  if ltb started.position (length h.entries)
      then (entry_at moved moved.position >>= λ line. some (some line, moved))
      else some (none, started)

unfoldable pub next : History → Option (Option (List ℕ) × History)
unfolding entry_at
next h =
    let moved : History = record h { position = h.position - 1 } in
    if not h.navigating
    then some (none, h)
    else if not (ltb 0 h.position)
    then some (none, h)
    else if moved.position == 0
    then some (some h.current_edit, record moved { navigating = false })
    else (entry_at moved moved.position >>= λ line. some (some line, moved))

module _ (trim : List ℕ → List ℕ) where
  unfoldable pub add : List ℕ → History → History
  unfolding reset_position is_last
  add line h =
      let trimmed = trim line in
      let kept = if leb h.max_size (length h.entries) then drop 1 h.entries else h.entries in
      if is_nil trimmed
      then h
      else if is_last trimmed h.entries
      then h
      else reset_position (record h { entries = kept ++ trimmed ∷ [] })

-- `contains entry pattern`
module _ (contains : List ℕ → List ℕ → Bool) where
  -- the loop of `search_backward`: `n` offsets are left, and the last position looked at is `pos`
  unfoldable pub older : List ℕ → History → ℕ → ℕ → Option (Option (ℕ × List ℕ))
  older pattern h zero pos = some none
  older pattern h (suc n) pos =
      if ltb (length h.entries) (pos + 1)
      then some none
      else (entry_at h (pos + 1) >>= λ line.
          if contains line pattern
          then some (some (pos + 1, line))
          else older pattern h n (pos + 1))

  -- the loop of `search_forward`, from position `n` down to 1
  unfoldable pub newer : List ℕ → History → ℕ → Option (Option (ℕ × List ℕ))
  newer pattern h zero = some none
  newer pattern h (suc n) = entry_at h (suc n) >>= λ line.
      if contains line pattern then some (some (suc n, line)) else newer pattern h n

  abbrev pub go_to : History → Option (ℕ × List ℕ) → Option (List ℕ) × History
  go_to h none = (none, h)
  go_to h (some (pos, line)) = (some line, record h { position = pos })

  unfoldable pub search_backward : List ℕ → List ℕ → History → Option (Option (List ℕ) × History)
  unfolding start_navigation
  search_backward pattern current h =
      let started = start_navigation current h in
      if is_nil h.entries || is_nil pattern
      then some (none, h)
      else (older pattern started (length h.entries) started.position >>= λ found.
          some (go_to started found))

  -- what `search_forward` does past its loop
  unfoldable pub or_current : List ℕ → History → Option (ℕ × List ℕ) → Option (List ℕ) × History
  or_current pattern h (some (pos, line)) = (some line, record h { position = pos })
  or_current pattern h none =
      if contains h.current_edit pattern
      then (some h.current_edit, record h { position = 0; navigating = false })
      else (none, h)

  unfoldable pub search_forward : List ℕ → History → Option (Option (List ℕ) × History)
  unfolding or_current
  search_forward pattern h =
      if not h.navigating || h.position == 0 || is_nil pattern
      then some (none, h)
      else (newer pattern h (h.position - 1) >>= λ found. some (or_current pattern h found))

-- `get`: 0 is the most recent
unfoldable pub get : ℕ → History → Option (List ℕ)
get index h =
    if ltb index (length h.entries)
    then get_elem? h.entries (length h.entries - 1 - index)
    else none
