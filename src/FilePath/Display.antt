-- ===== src/FilePath/Display.antt =====
-- A drive path shown, in either style, and parsed again is the path.
use mathlib.Core.List.{reverse}
use watos.Common.{
  ℕ, ◌≡◌, refl, ap, ◌∙◌, inl, inr, Bool, true, false, ◌||◌, some, List, [], ◌∷◌, ◌++◌, arith, ◌==◌,
  Bool-cases, drop,
}
use watos.FilePath.Text.{contains, split_on, join_with, to_head}
use watos.FilePath.{
  separator, win_separator, render, step_jailed, run_jailed, normalize_jailed, replace, ParsedPath,
  drive, parse, to_display, is_drive_letter,
}
use watos.FilePath.Parts.{clean}
use watos.FilePath.Normal.{clean-append, reverse-cons}
use watos.FilePath.Jail.{normalize_jailed-normalize_jailed}

contains-replace :
    (from to : ℕ) (xs : List ℕ) → (to == from) ≡ false → contains from (replace from to xs) ≡ false
unfolding contains replace
contains-replace from to [] h = refl
contains-replace from to (x ∷ xs) h = ground (arith, contains-replace from to xs h)

replace-none : (from to : ℕ) (xs : List ℕ) → contains from xs ≡ false → replace from to xs ≡ xs
unfolding contains replace
replace-none from to [] h = refl
replace-none from to (x ∷ xs) h = ground (arith, replace-none from to xs)

replace-back :
    (xs : List ℕ)
    → replace win_separator separator (replace separator win_separator xs)
      ≡ replace win_separator separator xs
unfolding replace
replace-back [] = refl
replace-back (x ∷ xs) = ground (arith, replace-back xs)

-- A character that a text lacks, its parts and what is joined from them lack too.
module _ (d : ℕ) where
  clean-split : (c : ℕ) (xs : List ℕ) → contains d xs ≡ false → clean d (split_on c xs) ≡ true
  unfolding split_on contains
  clean-split c [] h = refl
  clean-split c (x ∷ xs) h = elim (Bool-cases (x == c)) [
    | inl sep ↦ rw sep (clean-split c xs (ground arith))
    | inr other ↦
        rw other (head_clean x (split_on c xs) (ground arith) (clean-split c xs (ground arith)))
  ]
    where
      head_clean :
          (x : ℕ) (ps : List (List ℕ))
          → (x == d) ≡ false
          → clean d ps ≡ true
          → clean d (to_head x ps) ≡ true
      head_clean x [] e k = k
      head_clean x (p ∷ ps) e k = ground arith

  clean-step :
      (ps : List (List ℕ)) (part : List ℕ)
      → contains d part ≡ false
      → clean d ps ≡ true
      → clean d (step_jailed ps part) ≡ true
  unfolding step_jailed
  clean-step [] part c h = ground arith
  clean-step (p ∷ ps) part c h = ground arith

  clean-run :
      (ps parts : List (List ℕ))
      → clean d parts ≡ true
      → clean d ps ≡ true
      → clean d (run_jailed ps parts) ≡ true
  unfolding run_jailed
  clean-run ps [] c h = h
  clean-run ps (part ∷ parts) c h =
      clean-run (step_jailed ps part) parts (ground arith) (clean-step ps part (ground arith) h)

  contains-append : (xs ys : List ℕ) → contains d (xs ++ ys) ≡ (contains d xs || contains d ys)
  unfolding contains
  contains-append [] ys = refl
  contains-append (x ∷ xs) ys = ground (arith, contains-append xs ys)

  contains-join :
      (c : ℕ) (ps : List (List ℕ))
      → (c == d) ≡ false
      → clean d ps ≡ true
      → contains d (join_with c ps) ≡ false
  unfolding join_with contains
  contains-join c [] e h = refl
  contains-join c (p ∷ []) e h = ground arith
  contains-join c (p ∷ q ∷ qs) e h =
      ground (arith, contains-append p (c ∷ join_with c (q ∷ qs)), contains-join c (q ∷ qs) e)

  clean-reverse : (ps : List (List ℕ)) → clean d ps ≡ true → clean d (reverse ps) ≡ true
  clean-reverse [] h = refl
  clean-reverse (p ∷ ps) h =
      rw (reverse-cons p ps)
        (clean-append d (reverse ps) (p ∷ []) (clean-reverse ps (ground arith)) (ground arith))

  contains-render :
      (ps : List (List ℕ))
      → (separator == d) ≡ false
      → clean d ps ≡ true
      → contains d (render true ps) ≡ false
  unfolding render contains
  contains-render [] e h = ground arith
  contains-render (p ∷ ps) e h =
      ground (arith, contains-join separator (reverse (p ∷ ps)) e (clean-reverse (p ∷ ps) h))

  contains-normalize_jailed :
      (path : List ℕ)
      → (separator == d) ≡ false
      → contains d path ≡ false
      → contains d (normalize_jailed path) ≡ false
  unfolding normalize_jailed
  contains-normalize_jailed [] e h = contains-render [] e refl
  contains-normalize_jailed (c ∷ cs) e h =
      contains-render (run_jailed [] (split_on separator (c ∷ cs))) e
        (clean-run [] (split_on separator (c ∷ cs)) (clean-split separator (c ∷ cs) h) refl)

-- An upper-case letter is the drive of what begins with it and a colon.
drive_of_display :
    (path : List ℕ) {letter : ℕ} (rest : List ℕ)
    → is_drive_letter path ≡ some letter
    → is_drive_letter (letter ∷ b':' ∷ rest) ≡ some letter
unfolding is_drive_letter
drive_of_display [] rest h = cc
drive_of_display (a ∷ []) rest h = cc
drive_of_display (a ∷ b ∷ path) rest h = ground arith

-- The normalised part of a drive path.
abbrev inner : List ℕ → List ℕ
inner path = normalize_jailed (replace win_separator separator (drop 2 path))

inner-clean : (path : List ℕ) → replace win_separator separator (inner path) ≡ inner path
inner-clean path =
    let rest = replace win_separator separator (drop 2 path) in
    replace-none win_separator separator (normalize_jailed rest) (
      contains-normalize_jailed win_separator rest refl
        (contains-replace win_separator separator (drop 2 path) refl))

abbrev inner_path : ℕ → List ℕ → ParsedPath
inner_path letter path = record { path_type = drive letter; path = inner path }

parse-drive :
    (path : List ℕ) (letter : ℕ)
    → is_drive_letter path ≡ some letter
    → parse path ≡ inner_path letter path
unfolding parse
parse-drive path letter h = rw h

parse-shown :
    (path rest : List ℕ) (letter : ℕ)
    → is_drive_letter path ≡ some letter
    → replace win_separator separator rest ≡ inner path
    → parse (letter ∷ b':' ∷ rest) ≡ inner_path letter path
parse-shown path rest letter h e =
    parse-drive (letter ∷ b':' ∷ rest) letter (drive_of_display path rest h)
    ∙ ap (λ t. record { path_type = drive letter; path = normalize_jailed t }) e
    ∙ ap (λ t. record { path_type = drive letter; path = t })
        (normalize_jailed-normalize_jailed (replace win_separator separator (drop 2 path)))

shown :
    (path : List ℕ) (letter : ℕ) (windows_style : Bool)
    → is_drive_letter path ≡ some letter
    → parse (to_display windows_style (inner_path letter path)) ≡ inner_path letter path
unfolding to_display
shown path letter true h =
    parse-shown path (replace separator win_separator (inner path)) letter h
      (replace-back (inner path) ∙ inner-clean path)
shown path letter false h = parse-shown path (inner path) letter h (inner-clean path)

-- A path that starts with a drive letter, parsed, shown in either style and parsed again, is what
-- it was parsed to.
pub parse-to_display :
    (path : List ℕ) (windows_style : Bool) {letter : ℕ}
    → is_drive_letter path ≡ some letter
    → parse (to_display windows_style (parse path)) ≡ parse path
parse-to_display path windows_style {letter} h =
    rw (parse-drive path letter h) (shown path letter windows_style h)
