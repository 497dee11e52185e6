-- ===== src/Readline/History/Kept.antt =====
-- What every operation of the history keeps, and the walk back and forth.
use watos.Common.{
  is_nil, ℕ, ◌+◌, ◌-◌, ◌≤◌, ◌<◌, max, ◌≡◌, refl, inl, inr, Bool, true, false, ◌&&◌, not, Option,
  none, some, List, [], ◌∷◌, ◌++◌, arith, ltb, leb, ◌==◌, if◌then◌else◌, Bool-cases, length, drop,
  length-append, length-drop,
}
use watos.FilePath.Text.{text_eq}
use watos.Readline.Buffer.{◌>>=◌}
use watos.Common.Slices.{get_elem?-at}
use watos.Readline.History.{
  History, reset_position, is_last, clear, start_navigation, entry_at, prev, next, add,
}

-- no entry equals the one before it
abbrev pub no_repeat : List (List ℕ) → Bool
no_repeat [] = true
no_repeat (e ∷ []) = true
no_repeat (e ∷ f ∷ es) = not (text_eq e f) && no_repeat (f ∷ es)

no_repeat-push :
    (line : List ℕ) (es : List (List ℕ))
    → no_repeat es ≡ true
    → is_last line es ≡ false
    → no_repeat (es ++ line ∷ []) ≡ true
unfolding is_last
no_repeat-push line [] h k = refl
no_repeat-push line (e ∷ []) h k = rw k refl
no_repeat-push line (e ∷ f ∷ es) h k = ground (arith, no_repeat-push line (f ∷ es))

no_repeat-drop : (es : List (List ℕ)) → no_repeat es ≡ true → no_repeat (drop 1 es) ≡ true
no_repeat-drop [] h = refl
no_repeat-drop (e ∷ []) h = refl
no_repeat-drop (e ∷ f ∷ es) h = ground arith

is_last-drop :
    (line : List ℕ) (es : List (List ℕ))
    → is_last line es ≡ false
    → is_last line (drop 1 es) ≡ false
unfolding is_last
is_last-drop line [] h = refl
is_last-drop line (e ∷ []) h = refl
is_last-drop line (e ∷ f ∷ es) h = h

-- The entries are no more than the limit (one, where the limit is 0), no entry repeats the one before
-- it, and the position is one of theirs, or 0.
pub record IsValid (h : History) : Type 0 where
  pub few : length h.entries ≤ max 1 h.max_size
  pub unrepeated : no_repeat h.entries ≡ true
  pub inside : h.position ≤ length h.entries

pub entry_at-found :
    (h : History) (pos : ℕ)
    → 0 < pos
    → pos ≤ length h.entries
    → (line : List ℕ) × (entry_at h pos ≡ some line)
unfolding entry_at
entry_at-found h pos p q =
    let (x, e, s) = get_elem?-at h.entries (length h.entries - pos) (omega arith) in
    let t : leb pos (length h.entries) ≡ true = ground arith in (x, rw (t, e))

pub add-IsValid :
    (trim : List ℕ → List ℕ) (line : List ℕ) (h : History) → IsValid h → IsValid (add trim line h)
unfolding add reset_position
add-IsValid trim line h v = elim (Bool-cases (is_nil (trim line))) [
  | inl e ↦ rw e v
  | inr e ↦ elim (Bool-cases (is_last (trim line) h.entries)) [
    | inl l ↦ rw (e, l) v
    | inr l ↦ elim (Bool-cases (leb h.max_size (length h.entries))) [
      | inl full ↦
          rw (e, l, full)
            record {
              few = omega (
                arith,
                length-append (drop 1 h.entries) (trim line ∷ []),
                length-drop 1 h.entries,
              );
              unrepeated =
                  no_repeat-push (trim line) (drop 1 h.entries)
                    (no_repeat-drop h.entries (v.unrepeated))
                    (is_last-drop (trim line) h.entries l);
              inside = omega arith;
            }
      | inr room ↦
          rw (e, l, room)
            record {
              few =
                  let r : length h.entries < h.max_size = ground arith in
                  omega (arith, length-append h.entries (trim line ∷ []));
              unrepeated = no_repeat-push (trim line) h.entries v.unrepeated l;
              inside = omega arith;
            }
    ]
  ]
]

-- A property of a conditional, shown of each branch with what the test says there.
pub if-both {ℓ κ} :
    {A : Type ℓ} (P : A → Type κ) (b : Bool) (x y : A)
    → (b ≡ true → P x)
    → (b ≡ false → P y)
    → P (if b then x else y)
if-both P true x y f g = f refl
if-both P false x y f g = g refl

pub reset_position-IsValid : (h : History) → IsValid h → IsValid (reset_position h)
unfolding reset_position
reset_position-IsValid h v = record { few = v.few; unrepeated = v.unrepeated; inside = omega arith }

pub clear-IsValid : (h : History) → IsValid (clear h)
unfolding clear reset_position
clear-IsValid h = record { few = omega arith; unrepeated = refl; inside = omega arith }

pub start_navigation-IsValid :
    (current : List ℕ) (h : History) → IsValid h → IsValid (start_navigation current h)
unfolding start_navigation
start_navigation-IsValid current h v =
    if-both IsValid (not h.navigating)
      (record h { current_edit = current; navigating = true; position = 0 }) h
      (λ f. record { few = v.few; unrepeated = v.unrepeated; inside = omega arith }) (λ t. v)

started-entries :
    (current : List ℕ) (h : History) → (start_navigation current h).entries ≡ h.entries
unfolding start_navigation
started-entries current h =
    if-both (λ (r : History). r.entries ≡ h.entries) (not h.navigating)
      (record h { current_edit = current; navigating = true; position = 0 }) h (λ f. refl)
      (λ t. refl)

-- There is no panic, and what holds of every history still does.
abbrev pub Keeps {ℓ} : {A : Type ℓ} → Option (A × History) → Type ℓ
Keeps {A = A} r = (a : A) × (h : History) × (r ≡ some (a, h)) × IsValid h

pub moved-IsValid :
    (h : History) (pos : ℕ)
    → IsValid h
    → pos ≤ length h.entries
    → IsValid (record h { position = pos })
moved-IsValid h pos v p = record { few = v.few; unrepeated = v.unrepeated; inside = p }

pub prev-Keeps : (current : List ℕ) (h : History) → IsValid h → Keeps (prev current h)
unfolding prev
prev-Keeps current h v =
    let started = start_navigation current h in
    let moved : History = record started { position = started.position + 1 } in
    let w = start_navigation-IsValid current h v in
    let same = started-entries current h in
    elim (Bool-cases (is_nil h.entries)) [
      | inl e ↦ rw e (none, h, refl, v)
      | inr e ↦ elim (Bool-cases (ltb started.position (length h.entries))) [
        | inl t ↦
            let k : started.position < length started.entries = rw same (ground arith) in
            let (line, f) = entry_at-found moved moved.position (omega arith) (omega arith) in
            rw (e, t, f)
              (some line, moved, refl, moved-IsValid started moved.position w (omega arith))
        | inr t ↦ rw (e, t) (none, started, refl, w)
      ]
    ]

-- what `next` does where there is an entry to go to
next_entry-Keeps :
    (h : History)
    → IsValid h
    → 0 < h.position - 1
    → let moved : History = record h { position = h.position - 1 } in
      Keeps (entry_at moved moved.position >>= λ line. some (some line, moved))
next_entry-Keeps h v p =
    let moved : History = record h { position = h.position - 1 } in
    let inside = v.inside in
    let (line, f) = entry_at-found moved moved.position p (omega arith) in
    rw f (some line, moved, refl, moved-IsValid h moved.position v (omega arith))

pub next-Keeps : (h : History) → IsValid h → Keeps (next h)
unfolding next
next-Keeps h v =
    let moved : History = record h { position = h.position - 1 } in
    let inside = v.inside in
    if-both Keeps (not h.navigating) _ _ (λ f. (none, h, refl, v))
      λ t.
        if-both Keeps (not (ltb 0 h.position)) _ _ (λ f. (none, h, refl, v))
          λ t.
            if-both Keeps (moved.position == 0) _ _
              (λ z. (
                some h.current_edit,
                record moved { navigating = false },
                refl,
                record { few = v.few; unrepeated = v.unrepeated; inside = omega arith },
              ))
              λ z. next_entry-Keeps h v (ground arith)
