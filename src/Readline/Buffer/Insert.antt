-- ===== src/Readline/Buffer/Insert.antt =====
-- What an insertion puts in, and what `backspace` takes back.
use watos.Common.{
  ℕ, suc, ◌+◌, ◌-◌, ◌≤◌, ◌≡◌, refl, sym, ap, true, some, List, [], ◌∷◌, ◌++◌, append_assoc, arith,
  ltb, length, take, drop, length-append, length-take, take-append-drop,
}
use watos.Readline.Buffer.Text.{insert_at, remove_at}
use watos.Common.Slices.{take-take_append, take-insert, drop-insert, get_elem?-insert}
use watos.Readline.Buffer.{EditBuffer, insert, insert_str, backspace}

-- The cursor is in the text.
abbrev pub IsValid : EditBuffer → Type 0
IsValid b = b.cursor ≤ length b.chars

-- the buffer with `s` put in at the cursor
abbrev pub inserted : List ℕ → EditBuffer → EditBuffer
inserted s b = record b {
  chars = take b.cursor b.chars ++ (s ++ drop b.cursor b.chars);
  cursor = b.cursor + length s;
}

insert_lem : (ch : ℕ) (b : EditBuffer) → IsValid b → insert ch b ≡ some (inserted (ch ∷ []) b)
unfolding insert insert_at
insert_lem ch b h = ground arith

inserted-again :
    (ch : ℕ) (s : List ℕ) (b : EditBuffer)
    → IsValid b
    → inserted s (inserted (ch ∷ []) b) ≡ inserted (ch ∷ s) b
inserted-again ch s b h =
    let c = b.cursor in
    let xs = b.chars in
    let one : c + 1 ≡ suc c = omega arith in
    let n : suc c + length s ≡ c + suc (length s) = omega arith in
    rw
      (
        one,
        take-insert c xs (drop c xs) ch h,
        drop-insert c xs (drop c xs) ch h,
        n,
        append_assoc (take c xs) (ch ∷ []) (s ++ drop c xs),
      )
      refl

pub inserted-IsValid : (s : List ℕ) (b : EditBuffer) → IsValid b → IsValid (inserted s b)
inserted-IsValid s b h = omega (
  arith,
  length-append (take b.cursor b.chars) (s ++ drop b.cursor b.chars),
  length-append s (drop b.cursor b.chars),
  length-take b.cursor b.chars,
)

-- Where the cursor is in the text, `insert_str` puts the text in at the cursor and moves past it.
pub insert_str_lem :
    (s : List ℕ) (b : EditBuffer) → IsValid b → insert_str s b ≡ some (inserted s b)
unfolding insert_str
insert_str_lem [] b h =
    let n : b.cursor + 0 ≡ b.cursor = omega arith in
    let t : inserted [] b ≡ b = rw (take-append-drop b.cursor b.chars, n) refl in ap some (sym t)
insert_str_lem (ch ∷ s) b h =
    rw (insert_lem ch b h, insert_str_lem s (inserted (ch ∷ []) b) (inserted-IsValid (ch ∷ []) b h))
      (ap some (inserted-again ch s b h))

-- Where the cursor is in the text, a character that is typed in and then taken back leaves the
-- buffer as it was.
pub backspace-insert :
    (ch : ℕ) (b : EditBuffer)
    → IsValid b
    → (b' : EditBuffer) × (insert ch b ≡ some b') × (backspace b' ≡ some (some ch, b))
unfolding backspace remove_at
backspace-insert ch b h =
    let c = b.cursor in
    let xs = b.chars in
    let one : c + 1 - 1 ≡ c = omega arith in
    (
      inserted (ch ∷ []) b,
      insert_lem ch b h,
      (let p : ltb 0 (c + 1) ≡ true = ground arith in
          rw
            (
              p,
              one,
              get_elem?-insert c xs (drop c xs) ch h,
              take-take_append c xs (ch ∷ drop c xs) h,
              drop-insert c xs (drop c xs) ch h,
              take-append-drop c xs,
            )
            refl),
    )
