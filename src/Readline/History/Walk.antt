-- ===== src/Readline/History/Walk.antt =====
-- The walk to older entries and back.
use watos.Common.{
  is_nil, ℕ, zero, suc, ◌+◌, ◌-◌, ◌≤◌, ◌<◌, ◌≡◌, refl, ◌∙◌, true, false, not, Option, some, List,
  [], ◌∷◌, arith, ltb, leb, ◌==◌, length,
}
use watos.Readline.Buffer.{◌>>=◌}
use watos.Readline.History.{History, start_navigation, entry_at, prev, next, get}
use watos.Readline.History.Kept.{if-both}
use watos.Common.Slices.{get_elem?-at}

-- `n` calls, and one more: what the last one gives back, and the history after it
abbrev pub repeat :
    ℕ
    → (History → Option (Option (List ℕ) × History))
    → History
    → Option (Option (List ℕ) × History)
repeat zero f h = f h
repeat (suc n) f h = f h >>= λ (o, h'). repeat n f h'

-- the history in the walk from the line `current`, at position `k`
abbrev pub walking : ℕ → List ℕ → History → History
walking k current h = record h { position = k; current_edit = current; navigating = true }

-- the history after the walk
abbrev pub walked : List ℕ → History → History
walked current h = record h { position = 0; current_edit = current; navigating = false }

has_some {ℓ} : {A : Type ℓ} (xs : List A) (k : ℕ) → k < length xs → is_nil xs ≡ false
has_some [] k p = absurd (omega arith)
has_some (x ∷ xs) k p = refl

started_off :
    (current : List ℕ) (h : History)
    → h.navigating ≡ false
    → start_navigation current h ≡ walking 0 current h
unfolding start_navigation
started_off current h off =
    if-both (λ r. r ≡ walking 0 current h) (not h.navigating) (walking 0 current h) h (λ t. refl)
      (λ t. absurd (ground arith))

started_on :
    (current : List ℕ) (h : History) (k : ℕ)
    → start_navigation current (walking k current h) ≡ walking k current h
unfolding start_navigation
started_on current h k = refl

prev-start :
    (current : List ℕ) (h : History)
    → h.navigating ≡ false
    → 0 < length h.entries
    → prev current h ≡ prev current (walking 0 current h)
unfolding prev
prev-start current h off p =
    rw (has_some h.entries 0 p, started_off current h off, started_on current h 0) refl

-- the entry at a position in the walk
walking_entry :
    (current : List ℕ) (h : History) (k : ℕ)
    → 0 < k
    → k ≤ length h.entries
    → (line : List ℕ) × (get (k - 1) h ≡ some line) × (entry_at (walking k current h) k ≡ some line)
unfolding get entry_at
walking_entry current h k pos p =
    let (line, e, q) = get_elem?-at h.entries (length h.entries - k) (omega arith) in
    let low : leb k (length h.entries) ≡ true = ground arith in
    let low' : ltb (k - 1) (length h.entries) ≡ true = ground arith in
    let same : length h.entries - 1 - (k - 1) ≡ length h.entries - k = omega arith in
    (line, rw (low', same) e, rw low e)

prev-walking :
    (current : List ℕ) (h : History) (k : ℕ)
    → k < length h.entries
    → (line : List ℕ) × (get k h ≡ some line)
      × (prev current (walking k current h) ≡ some (some line, walking (k + 1) current h))
unfolding prev
prev-walking current h k p =
    let (line, g, e) = walking_entry current h (k + 1) (omega arith) (omega arith) in
    let same : k + 1 - 1 ≡ k = omega arith in
    let further : ltb k (length h.entries) ≡ true = ground arith in
    (line, rw same at g, rw (has_some h.entries k p, started_on current h k, further, e) refl)

next-walking :
    (current : List ℕ) (h : History) (k : ℕ)
    → 0 < k
    → k < length h.entries
    → (line : List ℕ) × (next (walking (k + 1) current h) ≡ some (some line, walking k current h))
unfolding next
next-walking current h k pos p =
    let (line, g, e) = walking_entry current h k pos (omega arith) in
    let same : k + 1 - 1 ≡ k = omega arith in
    let inside : ltb 0 (k + 1) ≡ true = ground arith in
    let more : (k == 0) ≡ false = ground arith in (line, rw (inside, same, more, e) refl)

next-first :
    (current : List ℕ) (h : History)
    → next (walking 1 current h) ≡ some (some current, walked current h)
unfolding next
next-first current h = refl

-- `n + 1` calls of `prev` from position `k`
prev-times :
    (current : List ℕ) (h : History) (n k : ℕ)
    → k + n < length h.entries
    → (line : List ℕ) × (get (k + n) h ≡ some line)
      × (repeat n (prev current) (walking k current h)
          ≡ some (some line, walking (k + n + 1) current h))
prev-times current h zero k p =
    let (line, g, e) = prev-walking current h k (omega arith) in
    let same : k + 0 ≡ k = omega arith in (line, rw same g, rw same e)
prev-times current h (suc n) k p =
    let (first, f, d) = prev-walking current h k (omega arith) in
    let (line, g, e) = prev-times current h n (k + 1) (omega arith) in
    let same : k + 1 + n ≡ k + suc n = omega arith in (line, rw same at g, rw d (rw same at e))

-- `n + 1` calls of `next` from position `n + 1`
next-times :
    (current : List ℕ) (h : History) (n : ℕ)
    → n < length h.entries
    → repeat n next (walking (n + 1) current h) ≡ some (some current, walked current h)
next-times current h zero p = next-first current h
next-times current h (suc n) p =
    let same : suc n ≡ n + 1 = omega arith in
    let (line, e) = next-walking current h (n + 1) (omega arith) (omega arith) in
    rw (same, e) (next-times current h n (omega arith))

-- From a history that is not being walked, where there are more than `n` entries, `n + 1` calls of
-- `prev` end at entry `n`, the most recent one being entry 0, and as many calls of `next` give the
-- line back that was being edited, with the entries as they were.
pub walk_back :
    (current : List ℕ) (h : History) (n : ℕ)
    → h.navigating ≡ false
    → n < length h.entries
    → (line : List ℕ) × (h' : History) × (get n h ≡ some line)
      × (repeat n (prev current) h ≡ some (some line, h'))
      × (repeat n next h' ≡ some (some current, walked current h))
walk_back current h n off p =
    let (line, g, e) = prev-times current h n 0 (omega arith) in
    let same : 0 + n ≡ n = omega arith in
    (
      line,
      walking (n + 1) current h,
      rw same at g,
      from_start n ∙ (rw same at e),
      next-times current h n p,
    )
  where
    from_start : (n : ℕ) → repeat n (prev current) h ≡ repeat n (prev current) (walking 0 current h)
    from_start zero = prev-start current h off (omega arith)
    from_start (suc m) = rw (prev-start current h off (omega arith)) refl
