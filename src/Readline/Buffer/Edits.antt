-- ===== src/Readline/Buffer/Edits.antt =====
-- The cursor over every sequence of edits.
use watos.Common.{
  ℕ, suc, ◌+◌, ◌-◌, min, ◌≡◌, refl, ap, inl, inr, Bool, ◌&&◌, Option, none, some, List, [], ◌∷◌,
  ◌++◌, arith, ltb, leb, ◌==◌, Bool-cases, Option-cases, length, get_or, take, drop, length-append,
  length-set, length-take, length-drop,
}
use watos.Readline.Buffer.Text.{◌>>=◌, remove_at, skip_forward, find_forward}
use watos.Common.Slices.{get_elem?-at}
use watos.Readline.Buffer.Bounds.{
  skip_back-le, skip_forward-drop, find_forward-lt, find_back-lt, swap_lem,
}
use watos.Readline.Buffer.{
  EditBuffer, new, set_content, set_cursor, insert_str, delete_char, backspace, not_whitespace,
  move_left, move_right, move_home, move_end, move_word_left, move_word_right, move_word_end,
  move_found, find_char_forward, find_char_backward, set_mark, clear_mark, clear, replace,
  transpose_chars, toggle_case, toggled,
}
use watos.Readline.Buffer.Insert.{IsValid, inserted, insert_str_lem, inserted-IsValid}
use watos.Readline.Buffer.Delete.{Cuts, Deletion, delete, delete-Cuts}

-- what is left when the value an operation gives beside the buffer is dropped
abbrev pub buffer_of {ℓ} : {A : Type ℓ} → Option (A × EditBuffer) → Option EditBuffer
buffer_of none = none
buffer_of (some (a, b)) = some b

-- There is no panic, and the cursor is in the text.
abbrev pub Safe : Option EditBuffer → Type 0
Safe r = (b : EditBuffer) × (r ≡ some b) × IsValid b

module _ (is_whitespace : ℕ → Bool) where
  -- every operation that changes a buffer, but `exchange_point_and_mark`
  pub data Edit : Type 0 where
    sets_content replaces : List ℕ → Edit
    sets_cursor : ℕ → Edit
    inserts : List ℕ → Edit
    deletes_char backspaces : Edit
    deletes : Deletion is_whitespace → Edit
    moves_left moves_right moves_home moves_end : Edit
    moves_word_left moves_word_right moves_word_end : Edit
    finds_forward finds_backward : ℕ → Edit
    sets_mark clears_mark clears transposes toggles : Edit

  abbrev pub apply : Edit → EditBuffer → Option EditBuffer
  apply (sets_content s) b = some (set_content s b)
  apply (replaces s) b = some (replace s b)
  apply (sets_cursor pos) b = some (set_cursor pos b)
  apply (inserts s) b = insert_str s b
  apply deletes_char b = buffer_of (delete_char b)
  apply backspaces b = buffer_of (backspace b)
  apply (deletes d) b = buffer_of (delete is_whitespace d b)
  apply moves_left b = some (move_left b)
  apply moves_right b = some (move_right b)
  apply moves_home b = some (move_home b)
  apply moves_end b = some (move_end b)
  apply moves_word_left b = move_word_left is_whitespace b
  apply moves_word_right b = some (move_word_right is_whitespace b)
  apply moves_word_end b = some (move_word_end is_whitespace b)
  apply (finds_forward ch) b = some (find_char_forward ch b).1
  apply (finds_backward ch) b = buffer_of (find_char_backward ch b)
  apply sets_mark b = some (set_mark b)
  apply clears_mark b = some (clear_mark b)
  apply clears b = some (clear b)
  apply transposes b = transpose_chars b
  apply toggles b = some (toggle_case b)

  delete_char-Safe : (b : EditBuffer) → IsValid b → Safe (buffer_of (delete_char b))
  unfolding delete_char remove_at
  delete_char-Safe b h = elim (Bool-cases (ltb b.cursor (length b.chars))) [
    | inl t ↦
        let (x, e, p) = get_elem?-at b.chars b.cursor (ground arith) in
        let rest = drop (suc b.cursor) b.chars in
        rw (t, e)
          (
            record b { chars = take b.cursor b.chars ++ rest },
            refl,
            omega (arith, length-append (take b.cursor b.chars) rest, length-take b.cursor b.chars),
          )
    | inr f ↦ rw f (b, refl, h)
  ]

  backspace-Safe : (b : EditBuffer) → IsValid b → Safe (buffer_of (backspace b))
  unfolding backspace remove_at
  backspace-Safe b h = elim (Bool-cases (ltb 0 b.cursor)) [
    | inl t ↦
        let i = b.cursor - 1 in
        let (x, e, p) = get_elem?-at b.chars i (ground arith) in
        let rest = drop (suc i) b.chars in
        rw (t, e)
          (
            record b { chars = take i b.chars ++ rest; cursor = i },
            refl,
            omega (arith, length-append (take i b.chars) rest, length-take i b.chars),
          )
    | inr f ↦ rw f (b, refl, h)
  ]

  Cuts-Safe : (b : EditBuffer) (r : Option (List ℕ × EditBuffer)) → Cuts b r → Safe (buffer_of r)
  Cuts-Safe b r (text, b', e, cut) = (b', ap buffer_of e, cut.valid)

  move_word_left-Safe : (b : EditBuffer) → IsValid b → Safe (move_word_left is_whitespace b)
  unfolding move_word_left
  move_word_left-Safe b h =
      let (blank, e, k) = skip_back-le is_whitespace b.chars b.cursor h in
      let (start, f, l) = skip_back-le (not_whitespace is_whitespace) b.chars blank (omega arith) in
      elim (Bool-cases (b.cursor == 0)) [
        | inl z ↦ rw z (b, refl, h)
        | inr nz ↦ rw (nz, e, f) (record b { cursor = start }, refl, omega arith)
      ]

  move_word_right-IsValid : (b : EditBuffer) → IsValid b → IsValid (move_word_right is_whitespace b)
  unfolding move_word_right
  move_word_right-IsValid b h =
      let word = skip_forward (not_whitespace is_whitespace) (drop b.cursor b.chars) b.cursor in
      skip_forward-drop is_whitespace b.chars word
        (skip_forward-drop (not_whitespace is_whitespace) b.chars b.cursor h)

  move_word_end-IsValid : (b : EditBuffer) → IsValid b → IsValid (move_word_end is_whitespace b)
  unfolding move_word_end
  move_word_end-IsValid b h = elim (Bool-cases (leb (length b.chars) b.cursor)) [
    | inl at_end ↦ rw at_end h
    | inr inside ↦
        let next = b.cursor + 1 in
        let blank = skip_forward is_whitespace (drop next b.chars) next in
        let k = skip_forward-drop is_whitespace b.chars next (ground arith) in
        let l = skip_forward-drop (not_whitespace is_whitespace) b.chars blank k in
        rw inside (ground (arith, l))
  ]

  find_char_forward-IsValid :
      (ch : ℕ) (b : EditBuffer) → IsValid b → IsValid (find_char_forward ch b).1
  unfolding find_char_forward move_found
  find_char_forward-IsValid ch b h =
      let rest = drop (b.cursor + 1) b.chars in
      elim (Option-cases (find_forward ch rest (b.cursor + 1))) [
        | inl e ↦ rw e h
        | inr (i, e) ↦ rw e (
            omega (
              arith,
              find_forward-lt ch rest (b.cursor + 1) i e,
              length-drop (b.cursor + 1) b.chars,
            ))
      ]

  find_char_backward-Safe :
      (ch : ℕ) (b : EditBuffer) → IsValid b → Safe (buffer_of (find_char_backward ch b))
  unfolding find_char_backward move_found
  find_char_backward-Safe ch b h = elim (find_back-lt ch b.chars b.cursor h) [
    | inl e ↦ rw e (b, refl, h)
    | inr (i, e, l) ↦ rw e (record b { cursor = i }, refl, omega arith)
  ]

  transpose_chars-Safe : (b : EditBuffer) → IsValid b → Safe (transpose_chars b)
  unfolding transpose_chars
  transpose_chars-Safe b h = elim (Bool-cases (leb 2 b.cursor)) [
    | inl t ↦
        let (ys, e, l) =
          swap_lem b.chars (b.cursor - 1) (b.cursor - 2) (ground arith) (ground arith) in
        rw (t, e) (record b { chars = ys }, refl, omega arith)
    | inr f ↦ elim (Bool-cases (b.cursor == 1 && leb 2 (length b.chars))) [
      | inl t ↦
          let (ys, e, l) = swap_lem b.chars 0 1 (ground arith) (ground arith) in
          rw (f, t, e) (record b { chars = ys; cursor = min 2 (length ys) }, refl, omega arith)
      | inr g ↦ rw (f, g) (b, refl, h)
    ]
  ]

  toggle_case-IsValid : (b : EditBuffer) → IsValid b → IsValid (toggle_case b)
  unfolding toggle_case
  toggle_case-IsValid b h = elim (Bool-cases (ltb b.cursor (length b.chars))) [
    | inl t ↦
        let v = toggled (get_or b.chars b.cursor 0) in
        rw t (omega (arith, length-set b.chars b.cursor v))
    | inr f ↦ rw f h
  ]

  -- Where the cursor is in the text, no edit but `exchange_point_and_mark` panics, and the cursor is
  -- in the text after it.
  pub apply-Safe : (e : Edit) (b : EditBuffer) → IsValid b → Safe (apply e b)
  unfolding set_content replace set_cursor move_left move_right move_home move_end set_mark
      clear_mark clear
  apply-Safe (sets_content s) b h = (set_content s b, refl, omega arith)
  apply-Safe (replaces s) b h = (replace s b, refl, omega arith)
  apply-Safe (sets_cursor pos) b h = (set_cursor pos b, refl, omega arith)
  apply-Safe (inserts s) b h = (inserted s b, insert_str_lem s b h, inserted-IsValid s b h)
  apply-Safe deletes_char b h = delete_char-Safe b h
  apply-Safe backspaces b h = backspace-Safe b h
  apply-Safe (deletes d) b h =
      Cuts-Safe b (delete is_whitespace d b) (delete-Cuts is_whitespace d b h)
  apply-Safe moves_left b h = (move_left b, refl, ground arith)
  apply-Safe moves_right b h = (move_right b, refl, ground arith)
  apply-Safe moves_home b h = (move_home b, refl, omega arith)
  apply-Safe moves_end b h = (move_end b, refl, omega arith)
  apply-Safe moves_word_left b h = move_word_left-Safe b h
  apply-Safe moves_word_right b h =
      (move_word_right is_whitespace b, refl, move_word_right-IsValid b h)
  apply-Safe moves_word_end b h = (move_word_end is_whitespace b, refl, move_word_end-IsValid b h)
  apply-Safe (finds_forward ch) b h =
      ((find_char_forward ch b).1, refl, find_char_forward-IsValid ch b h)
  apply-Safe (finds_backward ch) b h = find_char_backward-Safe ch b h
  apply-Safe sets_mark b h = (set_mark b, refl, h)
  apply-Safe clears_mark b h = (clear_mark b, refl, h)
  apply-Safe clears b h = (clear b, refl, omega arith)
  apply-Safe transposes b h = transpose_chars-Safe b h
  apply-Safe toggles b h = (toggle_case b, refl, toggle_case-IsValid b h)

  abbrev pub run : List Edit → EditBuffer → Option EditBuffer
  run [] b = some b
  run (e ∷ es) b = apply e b >>= λ b'. run es b'

  run-from : (es : List Edit) (b : EditBuffer) → IsValid b → Safe (run es b)
  run-from [] b h = (b, refl, h)
  run-from (e ∷ es) b h =
      let (b', p, k) = apply-Safe e b h in
      let (b'', q, l) = run-from es b' k in (b'', rw (p, q) refl, l)

  -- Whichever edits are made in a new buffer, `exchange_point_and_mark` left out, none panics, and in
  -- the end the cursor is in the text.
  pub run-Safe : (es : List Edit) → Safe (run es new)
  run-Safe es = run-from es new (omega arith)
