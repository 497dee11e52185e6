-- ===== src/FilePath/Jail.antt =====
-- `normalize_jailed`: it is `normalize` at the root, and its result cannot leave the root.
use mathlib.Core.List.{reverse}
use watos.Common.{ℕ, ◌≡◌, refl, sym, ap, ◌∙◌, Bool, true, ◌&&◌, List, [], ◌∷◌, ◌++◌, arith}
use watos.FilePath.Text.{text_eq, split_on, join_with}
use watos.FilePath.{
  separator, step, run_steps, render, normalize, last_is_dot_dot, step_jailed, run_jailed,
  normalize_jailed, components, keep_parts,
}
use watos.FilePath.Parts.{clean, clean-split_on, split_on-join_with}
use watos.FilePath.Normal.{
  is_plain, is_normal, step-is_normal, run_steps-is_normal, clean-normal, rest_normal, reverse-cons,
}
use watos.FilePath.Idempotent.{
  render-again, first_of_reverse, normalize_absolute, skip_empty, split_on_slash, full, full-normal,
}

step_jailed-eq-step :
    (ps : List (List ℕ)) (part : List ℕ)
    → is_normal true ps ≡ true
    → step_jailed ps part ≡ step true ps part
unfolding step_jailed step last_is_dot_dot
step_jailed-eq-step [] part h = ground arith
step_jailed-eq-step (p ∷ ps) part h = ground arith

run_jailed-eq-run_steps :
    (ps parts : List (List ℕ))
    → clean separator parts ≡ true
    → is_normal true ps ≡ true
    → run_jailed ps parts ≡ run_steps true ps parts
unfolding run_jailed run_steps
run_jailed-eq-run_steps ps [] c h = refl
run_jailed-eq-run_steps ps (part ∷ parts) c h = rw (step_jailed-eq-step ps part h) (
    run_jailed-eq-run_steps (step true ps part) parts (ground arith)
      (step-is_normal true ps part (ground arith) h))

-- `normalize_jailed` gives what `normalize` gives for the path with a separator before it.
pub normalize_jailed-eq-normalize :
    (path : List ℕ) → normalize_jailed path ≡ normalize (separator ∷ path)
unfolding normalize_jailed
normalize_jailed-eq-normalize [] = unfold normalize run_steps split_on step text_eq in refl
normalize_jailed-eq-normalize (c ∷ cs) =
    let parts = split_on separator (c ∷ cs) in
    ap (render true) (run_jailed-eq-run_steps [] parts (clean-split_on separator (c ∷ cs)) refl)
    ∙ ap (render true) (sym (skip_empty parts))
    ∙ ap (λ r. render true (run_steps true [] r)) (sym (split_on_slash (c ∷ cs)))
    ∙ sym (normalize_absolute (c ∷ cs))

-- the components of the result, the last one first
abbrev rooted : List ℕ → List (List ℕ)
rooted path = run_steps true [] (split_on separator (separator ∷ path))

rooted-is_normal : (path : List ℕ) → is_normal true (rooted path) ≡ true
rooted-is_normal path =
    run_steps-is_normal true [] (split_on separator (separator ∷ path))
      (clean-split_on separator (separator ∷ path)) refl

pub normalize_jailed-rooted : (path : List ℕ) → normalize_jailed path ≡ render true (rooted path)
normalize_jailed-rooted path = normalize_jailed-eq-normalize path ∙ normalize_absolute path

abbrev pub all_plain : List (List ℕ) → Bool
all_plain [] = true
all_plain (p ∷ ps) = is_plain p && all_plain ps

all_plain-append :
    (ps qs : List (List ℕ))
    → all_plain ps ≡ true
    → all_plain qs ≡ true
    → all_plain (ps ++ qs) ≡ true
all_plain-append [] qs h k = k
all_plain-append (p ∷ ps) qs h k = ground (arith, all_plain-append ps qs)

all_plain-normal : (ps : List (List ℕ)) → is_normal true ps ≡ true → all_plain (reverse ps) ≡ true
all_plain-normal [] h = refl
all_plain-normal (p ∷ ps) h = rw (reverse-cons p ps) (
    all_plain-append (reverse ps) (p ∷ []) (all_plain-normal ps (rest_normal true p ps h))
      (ground arith))

keep_parts-full : (ps : List (List ℕ)) → full ps ≡ true → keep_parts ps ≡ ps
unfolding keep_parts
keep_parts-full [] h = refl
keep_parts-full (p ∷ ps) h = ground (arith, keep_parts-full ps)

at_root :
    (q : List ℕ) (qs : List (List ℕ))
    → split_on separator (join_with separator (q ∷ qs)) ≡ q ∷ qs
    → keep_parts (q ∷ qs) ≡ q ∷ qs
    → components (separator ∷ join_with separator (q ∷ qs)) ≡ q ∷ qs
unfolding components
at_root q qs e k =
    ap keep_parts (split_on_slash (join_with separator (q ∷ qs)) ∙ ap (λ r. [] ∷ r) e)
    ∙ (unfold keep_parts in k)

components-rendered :
    (ps : List (List ℕ)) → is_normal true ps ≡ true → components (render true ps) ≡ reverse ps
components-rendered [] h = unfold components render split_on in refl
components-rendered (p ∷ ps) h = let (q, qs, e) = first_of_reverse p ps in parts p q ps qs e h
  where
    parts :
        (p q : List ℕ) (ps qs : List (List ℕ))
        → reverse (p ∷ ps) ≡ q ∷ qs
        → is_normal true (p ∷ ps) ≡ true
        → components (render true (p ∷ ps)) ≡ reverse (p ∷ ps)
    parts p q ps qs e h =
        let text : render true (p ∷ ps) ≡ separator ∷ join_with separator (q ∷ qs) =
          unfold render in rw e in
        let split_back =
          split_on-join_with separator q qs (rw e at (clean-normal true (p ∷ ps) h)) in
        let kept = keep_parts-full (q ∷ qs) (rw e at (full-normal true (p ∷ ps) h)) in
        ap components text ∙ at_root q qs split_back kept ∙ sym e

-- Whatever the path, no component of what `normalize_jailed` gives is empty, `.` or `..`: the
-- result cannot lead out of the root.
pub all_plain-normalize_jailed :
    (path : List ℕ) → all_plain (components (normalize_jailed path)) ≡ true
all_plain-normalize_jailed path =
    let n = rooted-is_normal path in
    rw (normalize_jailed-rooted path, components-rendered (rooted path) n)
      (all_plain-normal (rooted path) n)

jailed_absolute : (t : List ℕ) → normalize_jailed (separator ∷ t) ≡ normalize (separator ∷ t)
unfolding normalize_jailed
jailed_absolute t =
    let parts = split_on separator (separator ∷ t) in
    ap (render true)
      (run_jailed-eq-run_steps [] parts (clean-split_on separator (separator ∷ t)) refl)
    ∙ sym (normalize_absolute t)

jailed_rendered :
    (ps : List (List ℕ))
    → is_normal true ps ≡ true
    → normalize_jailed (render true ps) ≡ render true ps
jailed_rendered [] h = unfold normalize_jailed run_jailed split_on step_jailed text_eq in refl
jailed_rendered (p ∷ ps) h =
    let t = join_with separator (reverse (p ∷ ps)) in
    let text : render true (p ∷ ps) ≡ separator ∷ t = unfold render in refl in
    ap normalize_jailed text
    ∙ jailed_absolute t
    ∙ ap normalize (sym text)
    ∙ render-again true (p ∷ ps) h

-- Jailing twice is jailing once.
pub normalize_jailed-normalize_jailed :
    (path : List ℕ) → normalize_jailed (normalize_jailed path) ≡ normalize_jailed path
normalize_jailed-normalize_jailed path =
    rw (normalize_jailed-rooted path) (jailed_rendered (rooted path) (rooted-is_normal path))
