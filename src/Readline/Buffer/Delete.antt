-- ===== src/Readline/Buffer/Delete.antt =====
-- What a deletion takes out.
use watos.Common.{
  ℕ, ◌+◌, ◌-◌, ◌≤◌, min, ◌≡◌, refl, sym, inl, inr, Bool, Option, some, List, [], ◌++◌, append-nil,
  arith, leb, ◌==◌, Bool-cases, length, take, drop, length-append, length-take, length-drop,
  take-append-drop, ◌∙◌, ap,
}
use watos.Common.Slices.{take-all, drop-all, take-take_append, drop-take_append}
use watos.Readline.Buffer.Bounds.{
  three_parts, slice_lem, drain_lem, skip_back-le, skip_forward-ge, skip_forward-drop,
}
use watos.Readline.Buffer.Text.{skip_forward}
use watos.Readline.Buffer.{
  EditBuffer, insert_str, delete_to_end, delete_to_start, not_whitespace, delete_word_back,
  delete_word_forward, delete_between, delete_range,
}
use watos.Readline.Buffer.Insert.{IsValid, insert_str_lem}

-- `text` is cut out of `b` at the cursor that `b'` has: with it there, `b'` would hold what `b` holds.
-- The mark is kept.
pub record Cut (b : EditBuffer) (text : List ℕ) (b' : EditBuffer) : Type 0 where
  pub valid : IsValid b'
  pub same_mark : b'.mark ≡ b.mark
  pub whole : b.chars ≡ take b'.cursor b'.chars ++ (text ++ drop b'.cursor b'.chars)

cut_between :
    (s e : ℕ) (xs : List ℕ)
    → s ≤ e
    → e ≤ length xs
    → let rest = take s xs ++ drop e xs in
      xs ≡ take s rest ++ (take (e - s) (drop s xs) ++ drop s rest)
cut_between s e xs h k =
    rw
      (
        take-take_append s xs (drop e xs) (omega arith),
        drop-take_append s xs (drop e xs) (omega arith),
      )
      (three_parts s e xs h)

-- the buffer without the text from `s` to `e`, the cursor at `s`
abbrev without : ℕ → ℕ → EditBuffer → EditBuffer
without s e b = record b { chars = take s b.chars ++ drop e b.chars; cursor = s }

abbrev between : ℕ → ℕ → EditBuffer → List ℕ
between s e b = take (e - s) (drop s b.chars)

without-Cut :
    (s e : ℕ) (b : EditBuffer) → s ≤ e → e ≤ length b.chars → Cut b (between s e b) (without s e b)
without-Cut s e b h k = record {
  valid = omega (arith, length-append (take s b.chars) (drop e b.chars), length-take s b.chars);
  same_mark = refl;
  whole = cut_between s e b.chars h k;
}

-- The result is a text and the buffer it is cut out of.
abbrev pub Cuts : EditBuffer → Option (List ℕ × EditBuffer) → Type 0
Cuts b r = (text : List ℕ) × (b' : EditBuffer) × (r ≡ some (text, b')) × Cut b text b'

Cuts-between :
    (s e : ℕ) (b : EditBuffer) (r : Option (List ℕ × EditBuffer))
    → s ≤ e
    → e ≤ length b.chars
    → r ≡ some (between s e b, without s e b)
    → Cuts b r
Cuts-between s e b r h k p = (between s e b, without s e b, p, without-Cut s e b h k)

Cuts-nothing : (b : EditBuffer) → IsValid b → Cuts b (some ([], b))
Cuts-nothing b h = (
  [],
  b,
  refl,
  record { valid = h; same_mark = refl; whole = sym (take-append-drop b.cursor b.chars) },
)

delete_to_end-Cuts : (b : EditBuffer) → IsValid b → Cuts b (delete_to_end b)
unfolding delete_to_end
delete_to_end-Cuts b h =
    let c = b.cursor in
    let xs = b.chars in
    let n = length xs in
    Cuts-between c n b (delete_to_end b) h (omega arith)
      (rw (slice_lem xs c n h (omega arith), drop-all xs, append-nil (take c xs)) refl)

delete_to_start-Cuts : (b : EditBuffer) → IsValid b → Cuts b (delete_to_start b)
unfolding delete_to_start
delete_to_start-Cuts b h =
    let c = b.cursor in
    let xs = b.chars in
    let n = length xs in
    let rest = take-all (n - c) (drop c xs) (omega (arith, length-drop c xs)) in
    Cuts-between 0 c b (delete_to_start b) (omega arith) h
      (rw (slice_lem xs 0 c (omega arith) h, slice_lem xs c n h (omega arith), rest) refl)

delete_between-Cuts :
    (s e : ℕ) (b : EditBuffer) → s ≤ e → e ≤ length b.chars → Cuts b (delete_between s e b)
unfolding delete_between
delete_between-Cuts s e b h k =
    Cuts-between s e b (delete_between s e b) h k
      (rw (slice_lem b.chars s e h k, drain_lem b.chars s e h k) refl)

delete_range-Cuts : (start end : ℕ) (b : EditBuffer) → Cuts b (delete_range start end b)
unfolding delete_range
delete_range-Cuts start end b =
    let s = min start (length b.chars) in
    let e = min end (length b.chars) in
    elim (Bool-cases (leb s e)) [
      | inl h ↦ rw h (delete_between-Cuts s e b (ground arith) (omega arith))
      | inr h ↦ rw h (delete_between-Cuts e s b (ground arith) (omega arith))
    ]

module _ (is_whitespace : ℕ → Bool) where
  delete_word_back-Cuts : (b : EditBuffer) → IsValid b → Cuts b (delete_word_back is_whitespace b)
  unfolding delete_word_back
  delete_word_back-Cuts b h =
      let c = b.cursor in
      let xs = b.chars in
      let (blank, e, k) = skip_back-le is_whitespace xs c h in
      let (start, f, l) = skip_back-le (not_whitespace is_whitespace) xs blank (omega arith) in
      elim (Bool-cases (c == 0)) [
        | inl z ↦ rw z (Cuts-nothing b h)
        | inr nz ↦ Cuts-between start c b (delete_word_back is_whitespace b) (omega arith) h (
            rw
              (nz, e, f, slice_lem xs start c (omega arith) h, drain_lem xs start c (omega arith) h)
              refl)
      ]

  delete_word_forward-Cuts :
      (b : EditBuffer) → IsValid b → Cuts b (delete_word_forward is_whitespace b)
  unfolding delete_word_forward
  delete_word_forward-Cuts b h =
      let c = b.cursor in
      let xs = b.chars in
      let blank = skip_forward is_whitespace (drop c xs) c in
      let stop = skip_forward (not_whitespace is_whitespace) (drop blank xs) blank in
      let ge = skip_forward-ge is_whitespace (drop c xs) c in
      let le = skip_forward-drop is_whitespace xs c h in
      let ge' = skip_forward-ge (not_whitespace is_whitespace) (drop blank xs) blank in
      let le' = skip_forward-drop (not_whitespace is_whitespace) xs blank le in
      elim (Bool-cases (leb (length xs) c)) [
        | inl z ↦ rw z (Cuts-nothing b h)
        | inr nz ↦ Cuts-between c stop b (delete_word_forward is_whitespace b) (omega arith) le' (
            rw (nz, slice_lem xs c stop (omega arith) le', drain_lem xs c stop (omega arith) le')
              refl)
      ]

  -- the operations that give back the text they delete
  pub data Deletion : Type 0 where
    to_end to_start word_back word_forward : Deletion
    range : ℕ → ℕ → Deletion

  abbrev pub delete : Deletion → EditBuffer → Option (List ℕ × EditBuffer)
  delete to_end b = delete_to_end b
  delete to_start b = delete_to_start b
  delete word_back b = delete_word_back is_whitespace b
  delete word_forward b = delete_word_forward is_whitespace b
  delete (range start end) b = delete_range start end b

  -- Where the cursor is in the text, every deletion of a text succeeds and leaves the cursor in the
  -- text and the mark as it was; the text before was what is left, with the text that is given back
  -- at the cursor.
  pub delete-Cuts : (d : Deletion) (b : EditBuffer) → IsValid b → Cuts b (delete d b)
  delete-Cuts to_end b h = delete_to_end-Cuts b h
  delete-Cuts to_start b h = delete_to_start-Cuts b h
  delete-Cuts word_back b h = delete_word_back-Cuts b h
  delete-Cuts word_forward b h = delete_word_forward-Cuts b h
  delete-Cuts (range start end) b h = delete_range-Cuts start end b

  -- Where the cursor is in the text, what a deletion gives back is the text to insert in order to
  -- have the old text again.
  pub insert_str-delete :
      (d : Deletion) (b : EditBuffer)
      → IsValid b
      → (text : List ℕ) × (b' : EditBuffer) × (delete d b ≡ some (text, b'))
        × (insert_str text b'
            ≡ some (record b' { chars = b.chars; cursor = b'.cursor + length text }))
  insert_str-delete d b h =
      let (text, b', e, cut) = delete-Cuts d b h in
      (
        text,
        b',
        e,
        insert_str_lem text b' cut.valid
            ∙ ap (λ xs. some (record b' { chars = xs; cursor = b'.cursor + length text }))
                (sym cut.whole),
      )
