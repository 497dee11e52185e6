-- ===== src/FilePath/Normal.antt =====
-- `normalize`: the shape of its result, and that a second application changes nothing.
use mathlib.Core.List.{reverse, reverse-append}
use watos.Common.{
  is_nil, ℕ, ◌≡◌, refl, inl, inr, Bool, true, false, ◌&&◌, not, List, [], ◌∷◌, ◌++◌, arith,
  if◌then◌else◌, Bool-cases,
}
use watos.FilePath.Text.{text_eq, contains}
use watos.FilePath.{separator, dot, dot_dot, step, run_steps, last_is_dot_dot}
use watos.FilePath.Parts.{text_eq_refl, eq_of_text_eq, clean}

-- A component that names a file: not empty, not `.` or `..`, and without a separator.
abbrev pub is_plain : List ℕ → Bool
is_plain p =
    not (is_nil p)
    && (not (text_eq p dot) && (not (text_eq p dot_dot) && not (contains separator p)))

abbrev pub all_dot_dot : List (List ℕ) → Bool
all_dot_dot [] = true
all_dot_dot (p ∷ ps) = text_eq p dot_dot && all_dot_dot ps

-- Components as `normalize` leaves them, the last one first: plain ones, over `..` alone, and no `..`
-- in an absolute path.
abbrev pub is_normal : Bool → List (List ℕ) → Bool
is_normal is_absolute [] = true
is_normal is_absolute (p ∷ ps) =
    if text_eq p dot_dot
    then not is_absolute && all_dot_dot ps
    else is_plain p && is_normal is_absolute ps

dots_normal : (ps : List (List ℕ)) → all_dot_dot ps ≡ true → is_normal false ps ≡ true
dots_normal [] h = refl
dots_normal (p ∷ ps) h = ground arith

pub rest_normal :
    (abs : Bool) (p : List ℕ) (ps : List (List ℕ))
    → is_normal abs (p ∷ ps) ≡ true
    → is_normal abs ps ≡ true
rest_normal true p ps h = ground arith
rest_normal false p ps h = ground (arith, dots_normal ps)

last_dots :
    (abs : Bool) (ps : List (List ℕ))
    → is_normal abs ps ≡ true
    → last_is_dot_dot ps ≡ true
    → (abs ≡ false) × (all_dot_dot ps ≡ true)
unfolding last_is_dot_dot
last_dots true [] h k = cc
last_dots false [] h k = cc
last_dots true (p ∷ ps) h k = ground arith
last_dots false (p ∷ ps) h k = ground arith

-- A step keeps the components normal.
pub step-is_normal :
    (abs : Bool) (ps : List (List ℕ)) (part : List ℕ)
    → contains separator part ≡ false
    → is_normal abs ps ≡ true
    → is_normal abs (step abs ps part) ≡ true
unfolding step last_is_dot_dot
step-is_normal true [] part c h = ground arith
step-is_normal false [] part c h = ground (arith, text_eq_refl dot_dot)
step-is_normal abs (p ∷ ps) part c h =
    ground (arith, text_eq_refl dot_dot, rest_normal abs p ps h, last_dots abs (p ∷ ps) h)

pub run_steps-is_normal :
    (abs : Bool) (ps parts : List (List ℕ))
    → clean separator parts ≡ true
    → is_normal abs ps ≡ true
    → is_normal abs (run_steps abs ps parts) ≡ true
unfolding run_steps
run_steps-is_normal abs ps [] c h = h
run_steps-is_normal abs ps (part ∷ parts) c h =
    run_steps-is_normal abs (step abs ps part) parts (ground arith)
      (step-is_normal abs ps part (ground arith) h)

step-dot_dot : (ps : List (List ℕ)) → all_dot_dot ps ≡ true → step false ps dot_dot ≡ dot_dot ∷ ps
unfolding step last_is_dot_dot text_eq
step-dot_dot [] h = refl
step-dot_dot (p ∷ ps) h = ground arith

-- A step at a normal component pushes it.
step-normal :
    (abs : Bool) (p : List ℕ) (ps : List (List ℕ))
    → is_normal abs (p ∷ ps) ≡ true
    → step abs ps p ≡ p ∷ ps
unfolding step
step-normal abs p ps h = elim (Bool-cases (text_eq p dot_dot)) [
  | inr plain ↦ ground arith
  | inl dots ↦
      let is_dots : p ≡ dot_dot = eq_of_text_eq p dot_dot dots in
      let relative : abs ≡ false = ground arith in
      let below : all_dot_dot ps ≡ true = ground arith in
      rw (is_dots, relative) (step-dot_dot ps below)
]

run_steps-append :
    (abs : Bool) (ps xs ys : List (List ℕ))
    → run_steps abs ps (xs ++ ys) ≡ run_steps abs (run_steps abs ps xs) ys
unfolding run_steps
run_steps-append abs ps [] ys = refl
run_steps-append abs ps (x ∷ xs) ys = run_steps-append abs (step abs ps x) xs ys

pub reverse-cons : (p : List ℕ) (ps : List (List ℕ)) → reverse (p ∷ ps) ≡ reverse ps ++ p ∷ []
reverse-cons p ps = reverse-append (p ∷ []) ps

-- Normal components, run through the loop again, come out as they are.
pub run_steps-normal :
    (abs : Bool) (ps : List (List ℕ)) → is_normal abs ps ≡ true → run_steps abs [] (reverse ps) ≡ ps
run_steps-normal abs [] h = unfold run_steps in refl
run_steps-normal abs (p ∷ ps) h =
    rw
      (
        reverse-cons p ps,
        run_steps-append abs [] (reverse ps) (p ∷ []),
        run_steps-normal abs ps (rest_normal abs p ps h),
      )
      (unfold run_steps in step-normal abs p ps h)

-- Normal components are clean and not empty.
pub normal_part :
    (abs : Bool) (p : List ℕ) (ps : List (List ℕ))
    → is_normal abs (p ∷ ps) ≡ true
    → (contains separator p ≡ false) × (is_nil p ≡ false)
unfolding contains
normal_part abs p ps h = elim (Bool-cases (text_eq p dot_dot)) [
  | inr plain ↦ ground arith
  | inl dots ↦ rw (eq_of_text_eq p dot_dot dots) (refl, refl)
]

pub clean-append :
    (c : ℕ) (ps qs : List (List ℕ))
    → clean c ps ≡ true
    → clean c qs ≡ true
    → clean c (ps ++ qs) ≡ true
clean-append c [] qs h k = k
clean-append c (p ∷ ps) qs h k = ground (arith, clean-append c ps qs)

pub clean-normal :
    (abs : Bool) (ps : List (List ℕ))
    → is_normal abs ps ≡ true
    → clean separator (reverse ps) ≡ true
clean-normal abs [] h = refl
clean-normal abs (p ∷ ps) h =
    let (c, n) = normal_part abs p ps h in
    rw (reverse-cons p ps) (
      clean-append separator (reverse ps) (p ∷ []) (clean-normal abs ps (rest_normal abs p ps h))
        (ground arith))
