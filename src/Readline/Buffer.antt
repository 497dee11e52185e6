-- ===== src/Readline/Buffer.antt =====
-- crates/sys/readline/src/buffer.rs: the edit buffer. A character is its code point, a text a list of
-- them. `none` is a panic. Which characters are white space is the library's, and a parameter of the
-- operations on words.
mod Text
pub mod Bounds
pub mod Insert
pub mod Delete
pub mod Edits
pub mod Mark
mod Tests
pub use Text.{◌>>=◌}
use watos.Common.{
  ℕ, zero, suc, ◌+◌, ◌-◌, ◌*◌, ◌/◌, ◌%◌, ◌^◌, ◌≤◌, ◌<◌, min, max, bit_and, bit_or, ◌≡◌, refl, sym,
  ap, ◌∙◌, ◌≢◌, ◌↔◌, ◌⊎◌, inl, inr, Bool, true, false, ◌&&◌, ◌||◌, not, Option, none, some, List,
  [], ◌∷◌, ◌++◌, map, append-nil, append_assoc, arith, ltb, leb, ◌==◌, if◌then◌else◌, ltb→lt,
  ==_iff, Bool-cases, Option-cases, length, get_elem?, get_or, set, take, drop, replicate,
  length-append, length-set, length-replicate, length-take, length-drop, take-append-drop,
  get_or-set_self, get_or-set_ne, get_or-replicate, set-out, sub_u64, add_u64,
}
use Text.{
  insert_at, remove_at, slice, drain, swap, skip_back, skip_forward, find_forward, find_back,
  is_ascii_lowercase, is_ascii_uppercase,
}

pub record EditBuffer : Type 0 where
  pub chars : List ℕ
  pub cursor : ℕ
  pub mark : Option ℕ

abbrev pub new : EditBuffer
new = record { chars = []; cursor = 0; mark = none }

unfoldable pub with_content : List ℕ → EditBuffer
with_content s = record { chars = s; cursor = length s; mark = none }

unfoldable pub set_content : List ℕ → EditBuffer → EditBuffer
set_content s b = record b { chars = s; cursor = length s; mark = none }

unfoldable pub set_cursor : ℕ → EditBuffer → EditBuffer
set_cursor pos b = record b { cursor = min pos (length (b.chars)) }

unfoldable pub char_at : ℕ → EditBuffer → Option ℕ
char_at pos b = get_elem? (b.chars) pos

unfoldable pub current_char : EditBuffer → Option ℕ
unfolding char_at
current_char b = char_at b.cursor b

unfoldable pub prev_char : EditBuffer → Option ℕ
unfolding char_at
prev_char b = if ltb 0 b.cursor then char_at (b.cursor - 1) b else none

unfoldable pub insert : ℕ → EditBuffer → Option EditBuffer
insert ch b = do
  chars ← insert_at b.chars b.cursor ch
  some (record b { chars = chars; cursor = b.cursor + 1 })

unfoldable pub insert_str : List ℕ → EditBuffer → Option EditBuffer
insert_str [] b = some b
insert_str (ch ∷ s) b = do b' ← insert ch b; insert_str s b'

-- the character that is deleted, if any, and the buffer
unfoldable pub delete_char : EditBuffer → Option (Option ℕ × EditBuffer)
delete_char b =
    if not (ltb b.cursor (length b.chars))
    then some (none, b)
    else do (ch, chars) ← remove_at b.chars b.cursor; some (some ch, record b { chars = chars })

unfoldable pub backspace : EditBuffer → Option (Option ℕ × EditBuffer)
backspace b = if not (ltb 0 b.cursor) then some (none, b) else do
  (ch, chars) ← remove_at b.chars (b.cursor - 1)
  some (some ch, record b { chars = chars; cursor = b.cursor - 1 })

-- the text that is deleted, and the buffer
unfoldable pub delete_to_end : EditBuffer → Option (List ℕ × EditBuffer)
delete_to_end b = do
  deleted ← slice b.chars b.cursor (length b.chars)
  some (deleted, record b { chars = take b.cursor b.chars })

unfoldable pub delete_to_start : EditBuffer → Option (List ℕ × EditBuffer)
delete_to_start b = do
  deleted ← slice b.chars 0 b.cursor
  chars ← slice b.chars b.cursor (length b.chars)
  some (deleted, record b { chars = chars; cursor = 0 })

unfoldable pub move_left : EditBuffer → EditBuffer
move_left b = if ltb 0 b.cursor then record b { cursor = b.cursor - 1 } else b

unfoldable pub move_right : EditBuffer → EditBuffer
move_right b = if ltb b.cursor (length b.chars) then record b { cursor = b.cursor + 1 } else b

unfoldable pub move_home : EditBuffer → EditBuffer
move_home b = record b { cursor = 0 }

unfoldable pub move_end : EditBuffer → EditBuffer
move_end b = record b { cursor = length b.chars }

module _ (is_whitespace : ℕ → Bool) where
  unfoldable pub not_whitespace : ℕ → Bool
  not_whitespace c = not (is_whitespace c)

  unfoldable pub delete_word_back : EditBuffer → Option (List ℕ × EditBuffer)
  delete_word_back b = if b.cursor == 0 then some ([], b) else do
    end ← skip_back is_whitespace b.chars b.cursor
    start ← skip_back not_whitespace b.chars end
    deleted ← slice b.chars start b.cursor
    chars ← drain b.chars start b.cursor
    some (deleted, record b { chars = chars; cursor = start })

  unfoldable pub delete_word_forward : EditBuffer → Option (List ℕ × EditBuffer)
  delete_word_forward b = if leb (length b.chars) b.cursor then some ([], b) else do
    let start = b.cursor
    let blank = skip_forward is_whitespace (drop start b.chars) start
    let end = skip_forward not_whitespace (drop blank b.chars) blank
    deleted ← slice b.chars start end
    chars ← drain b.chars start end
    some (deleted, record b { chars = chars })

  unfoldable pub move_word_left : EditBuffer → Option EditBuffer
  move_word_left b = if b.cursor == 0 then some b else do
    blank ← skip_back is_whitespace b.chars b.cursor
    start ← skip_back not_whitespace b.chars blank
    some (record b { cursor = start })

  unfoldable pub move_word_right : EditBuffer → EditBuffer
  move_word_right b =
      let word = skip_forward not_whitespace (drop b.cursor b.chars) b.cursor in
      record b { cursor = skip_forward is_whitespace (drop word b.chars) word }

  unfoldable pub move_word_end : EditBuffer → EditBuffer
  move_word_end b =
      let len = length b.chars in
      let next = b.cursor + 1 in
      let blank = skip_forward is_whitespace (drop next b.chars) next in
      let word = skip_forward not_whitespace (drop blank b.chars) blank in
      if leb len b.cursor
      then b
      else record b { cursor = if ltb 0 word && leb word len then word - 1 else word }

unfoldable pub move_found : EditBuffer → Option ℕ → Bool × EditBuffer
move_found b none = (false, b)
move_found b (some i) = (true, record b { cursor = i })

-- whether the character is found, and the buffer
unfoldable pub find_char_forward : ℕ → EditBuffer → Bool × EditBuffer
unfolding move_found
find_char_forward ch b = move_found b (find_forward ch (drop (b.cursor + 1) b.chars) (b.cursor + 1))

unfoldable pub find_char_backward : ℕ → EditBuffer → Option (Bool × EditBuffer)
unfolding move_found
find_char_backward ch b = do found ← find_back ch b.chars b.cursor; some (move_found b found)

unfoldable pub set_mark : EditBuffer → EditBuffer
set_mark b = record b { mark = some b.cursor }

unfoldable pub clear_mark : EditBuffer → EditBuffer
clear_mark b = record b { mark = none }

unfoldable pub swap_mark : EditBuffer → Option ℕ → EditBuffer
swap_mark b none = b
swap_mark b (some mark) = record b { cursor = mark; mark = some b.cursor }

unfoldable pub exchange_point_and_mark : EditBuffer → EditBuffer
unfolding swap_mark
exchange_point_and_mark b = swap_mark b b.mark

unfoldable pub clear : EditBuffer → EditBuffer
clear b = record { chars = []; cursor = 0; mark = none }

unfoldable pub replace : List ℕ → EditBuffer → EditBuffer
replace content b = record { chars = content; cursor = length content; mark = none }

unfoldable pub transpose_chars : EditBuffer → Option EditBuffer
transpose_chars b =
    if leb 2 b.cursor
    then (swap b.chars (b.cursor - 1) (b.cursor - 2) >>= λ chars. some (record b { chars = chars }))
    else if b.cursor == 1 && leb 2 (length b.chars)
    then (swap b.chars 0 1 >>= λ chars.
        some (record b { chars = chars; cursor = min 2 (length chars) }))
    else some b

unfoldable pub toggled : ℕ → ℕ
unfolding is_ascii_lowercase is_ascii_uppercase
toggled ch =
    if is_ascii_lowercase ch then ch - 32 else if is_ascii_uppercase ch then ch + 32 else ch

unfoldable pub toggle_case : EditBuffer → EditBuffer
unfolding toggled
toggle_case b =
    if ltb b.cursor (length b.chars)
    then record b { chars = set b.chars b.cursor (toggled (get_or b.chars b.cursor 0)) }
    else b

unfoldable pub text_range : ℕ → ℕ → EditBuffer → Option (List ℕ)
text_range start end b =
    let s = min start (length b.chars) in
    let e = min end (length b.chars) in if leb s e then slice b.chars s e else slice b.chars e s

-- what `delete_range` does once the ends are in order
unfoldable pub delete_between : ℕ → ℕ → EditBuffer → Option (List ℕ × EditBuffer)
delete_between s e b = do
  deleted ← slice b.chars s e
  chars ← drain b.chars s e
  some (deleted, record b { chars = chars; cursor = s })

unfoldable pub delete_range : ℕ → ℕ → EditBuffer → Option (List ℕ × EditBuffer)
unfolding delete_between
delete_range start end b =
    let s = min start (length b.chars) in
    let e = min end (length b.chars) in
    if leb s e then delete_between s e b else delete_between e s b
