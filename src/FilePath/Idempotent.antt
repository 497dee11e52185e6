-- ===== src/FilePath/Idempotent.antt =====
-- `normalize` gives a normal path, and normalising that again changes nothing.
use mathlib.Core.List.{reverse}
use watos.Common.{
  is_nil, ℕ, ◌≡◌, refl, ap, ◌∙◌, Bool, true, false, ◌&&◌, not, List, [], ◌∷◌, ◌++◌, arith, ◌==◌,
}
use watos.FilePath.Text.{text_eq, contains, split_on, join_with}
use watos.FilePath.{separator, step, run_steps, render, normalize}
use watos.FilePath.Parts.{clean-split_on, split_on-join_with}
use watos.FilePath.Normal.{
  is_normal, run_steps-is_normal, run_steps-normal, clean-normal, normal_part, rest_normal,
  reverse-cons,
}

-- the components that a text normalises to, the last one first
abbrev pub components_of : ℕ → List ℕ → List (List ℕ)
components_of c cs = run_steps (c == separator) [] (split_on separator (c ∷ cs))

-- `normalize` renders normal components.
pub normalize-normal :
    (c : ℕ) (cs : List ℕ)
    → (normalize (c ∷ cs) ≡ render (c == separator) (components_of c cs))
      × (is_normal (c == separator) (components_of c cs) ≡ true)
unfolding normalize
normalize-normal c cs = (
  refl,
  run_steps-is_normal (c == separator) [] (split_on separator (c ∷ cs))
      (clean-split_on separator (c ∷ cs)) refl,
)

-- A list turned round, as a first part and the rest.
pub first_of_reverse :
    (p : List ℕ) (ps : List (List ℕ))
    → (q : List ℕ) × (qs : List (List ℕ)) × (reverse (p ∷ ps) ≡ q ∷ qs)
first_of_reverse p ps = rw (reverse-cons p ps) (first (reverse ps) p)
  where
    first :
        (xs : List (List ℕ)) (p : List ℕ)
        → (q : List ℕ) × (qs : List (List ℕ)) × (xs ++ p ∷ [] ≡ q ∷ qs)
    first [] p = (p, [], refl)
    first (x ∷ xs) p = (x, xs ++ p ∷ [], refl)

abbrev pub full : List (List ℕ) → Bool
full [] = true
full (p ∷ ps) = not (is_nil p) && full ps

full-append : (ps qs : List (List ℕ)) → full ps ≡ true → full qs ≡ true → full (ps ++ qs) ≡ true
full-append [] qs h k = k
full-append (p ∷ ps) qs h k = ground (arith, full-append ps qs)

pub full-normal :
    (abs : Bool) (ps : List (List ℕ)) → is_normal abs ps ≡ true → full (reverse ps) ≡ true
full-normal abs [] h = refl
full-normal abs (p ∷ ps) h =
    let (c, n) = normal_part abs p ps h in
    rw (reverse-cons p ps) (
      full-append (reverse ps) (p ∷ []) (full-normal abs ps (rest_normal abs p ps h))
        (ground arith))

-- The text of relative components does not begin with a separator.
starts_plain :
    (q : List ℕ) (qs : List (List ℕ))
    → is_nil q ≡ false
    → contains separator q ≡ false
    → (c : ℕ) × (cs : List ℕ) × (join_with separator (q ∷ qs) ≡ c ∷ cs) × ((c == separator) ≡ false)
unfolding contains join_with
starts_plain [] qs n h = cc
starts_plain (x ∷ xs) [] n h = (x, xs, refl, ground arith)
starts_plain (x ∷ xs) (r ∷ rs) n h =
    (x, xs ++ separator ∷ join_with separator (r ∷ rs), refl, ground arith)

normalize_relative :
    (t : List ℕ) (c : ℕ) (cs : List ℕ)
    → t ≡ c ∷ cs
    → (c == separator) ≡ false
    → normalize t ≡ render false (run_steps false [] (split_on separator t))
unfolding normalize
normalize_relative t c cs e h = rw (e, h)

pub split_on_slash : (t : List ℕ) → split_on separator (separator ∷ t) ≡ [] ∷ split_on separator t
unfolding split_on
split_on_slash t = refl

pub normalize_absolute :
    (t : List ℕ)
    → normalize (separator ∷ t)
      ≡ render true (run_steps true [] (split_on separator (separator ∷ t)))
unfolding normalize
normalize_absolute t = refl

pub skip_empty : (ps : List (List ℕ)) → run_steps true [] ([] ∷ ps) ≡ run_steps true [] ps
unfolding run_steps step
skip_empty ps = refl

again_absolute :
    (p q : List ℕ) (ps qs : List (List ℕ))
    → reverse (p ∷ ps) ≡ q ∷ qs
    → is_normal true (p ∷ ps) ≡ true
    → normalize (render true (p ∷ ps)) ≡ render true (p ∷ ps)
again_absolute p q ps qs e h =
    let text : render true (p ∷ ps) ≡ separator ∷ join_with separator (q ∷ qs) =
      unfold render in rw e in
    let parts = split_on-join_with separator q qs (rw e at (clean-normal true (p ∷ ps) h)) in
    let back = rw e at (run_steps-normal true (p ∷ ps) h) in
    ap normalize text
    ∙ normalize_absolute (join_with separator (q ∷ qs))
    ∙ ap (λ r. render true (run_steps true [] r))
        (split_on_slash (join_with separator (q ∷ qs)) ∙ ap (λ r. [] ∷ r) parts)
    ∙ ap (render true) (skip_empty (q ∷ qs) ∙ back)

again_relative :
    (p q : List ℕ) (ps qs : List (List ℕ))
    → reverse (p ∷ ps) ≡ q ∷ qs
    → is_normal false (p ∷ ps) ≡ true
    → normalize (render false (p ∷ ps)) ≡ render false (p ∷ ps)
again_relative p q ps qs e h =
    let text : render false (p ∷ ps) ≡ join_with separator (q ∷ qs) = unfold render in rw e in
    let clean_parts = rw e at (clean-normal false (p ∷ ps) h) in
    let full_parts = rw e at (full-normal false (p ∷ ps) h) in
    let parts = split_on-join_with separator q qs clean_parts in
    let back = rw e at (run_steps-normal false (p ∷ ps) h) in
    let (c, cs, start, other) = starts_plain q qs (ground arith) (ground arith) in
    ap normalize text
    ∙ normalize_relative (join_with separator (q ∷ qs)) c cs start other
    ∙ ap (λ r. render false (run_steps false [] r)) parts
    ∙ ap (render false) back

pub render-again :
    (abs : Bool) (ps : List (List ℕ))
    → is_normal abs ps ≡ true
    → normalize (render abs ps) ≡ render abs ps
render-again true [] h = unfold normalize run_steps split_on step text_eq in refl
render-again false [] h = unfold normalize run_steps split_on step text_eq in refl
render-again true (p ∷ ps) h =
    let (q, qs, e) = first_of_reverse p ps in again_absolute p q ps qs e h
render-again false (p ∷ ps) h =
    let (q, qs, e) = first_of_reverse p ps in again_relative p q ps qs e h

-- To normalise a path that is normalised changes nothing.
pub normalize-normalize : (path : List ℕ) → normalize (normalize path) ≡ normalize path
normalize-normalize [] = unfold normalize run_steps split_on step text_eq in refl
normalize-normalize (c ∷ cs) =
    let (e, n) = normalize-normal c cs in
    rw e (render-again (c == separator) (components_of c cs) n)
