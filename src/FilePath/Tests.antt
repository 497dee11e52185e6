-- ===== src/FilePath/Tests.antt =====
-- Runs of the path functions, and the theorems at such paths.
use watos.Common.{ℕ, ◌≡◌, refl, true, some, List, [], ◌∷◌}
use watos.FilePath.{
  normalize, normalize_jailed, parse, to_display, drive, components, separator, is_drive_letter,
  run_steps, run_jailed, step, step_jailed, replace, parent, filename,
}
use watos.FilePath.Text.{split_on, text_eq, join_with, rfind, trim_end}
use watos.FilePath.Idempotent.{normalize-normalize}
use watos.FilePath.Jail.{normalize_jailed-eq-normalize, all_plain, all_plain-normalize_jailed}
use watos.FilePath.Display.{parse-to_display}

-- `../a/./b//../c`
abbrev climbing : List ℕ
climbing =
    b'.' ∷ b'.' ∷ b'/' ∷ b'a' ∷ b'/' ∷ b'.' ∷ b'/' ∷ b'b' ∷ b'/' ∷ b'/' ∷ b'.' ∷ b'.' ∷ b'/' ∷ b'c'
    ∷ []

normalize-climbing : normalize climbing ≡ b'.' ∷ b'.' ∷ b'/' ∷ b'a' ∷ b'/' ∷ b'c' ∷ []
unfolding normalize run_steps split_on step text_eq join_with
normalize-climbing = refl

normalize_jailed-climbing : normalize_jailed climbing ≡ b'/' ∷ b'a' ∷ b'/' ∷ b'c' ∷ []
unfolding normalize_jailed run_jailed split_on step_jailed text_eq join_with
normalize_jailed-climbing = refl

-- `c:` and a backslash, `x`
abbrev on_drive : List ℕ
on_drive = b'c' ∷ b':' ∷ 0x5c ∷ b'x' ∷ []

is_drive_letter-on_drive : is_drive_letter on_drive ≡ some b'C'
unfolding is_drive_letter
is_drive_letter-on_drive = refl

parse-on_drive : parse on_drive ≡ record { path_type = drive b'C'; path = b'/' ∷ b'x' ∷ [] }
unfolding parse is_drive_letter replace normalize_jailed run_jailed split_on step_jailed text_eq
    join_with
parse-on_drive = refl

parent-climbing :
    (parent (b'/' ∷ b'a' ∷ b'/' ∷ b'b' ∷ b'/' ∷ []) ≡ some (b'/' ∷ b'a' ∷ []))
    × (filename (b'/' ∷ b'a' ∷ b'/' ∷ b'b' ∷ b'/' ∷ []) ≡ some (b'b' ∷ []))
unfolding parent filename trim_end rfind text_eq
parent-climbing = (refl, refl)

normalize-normalize_example : normalize (normalize climbing) ≡ normalize climbing
normalize-normalize_example = normalize-normalize climbing

normalize_jailed-eq-normalize_example : normalize_jailed climbing ≡ normalize (separator ∷ climbing)
normalize_jailed-eq-normalize_example = normalize_jailed-eq-normalize climbing

all_plain-normalize_jailed_example : all_plain (components (normalize_jailed climbing)) ≡ true
all_plain-normalize_jailed_example = all_plain-normalize_jailed climbing

parse-to_display_example : parse (to_display true (parse on_drive)) ≡ parse on_drive
parse-to_display_example = parse-to_display on_drive true is_drive_letter-on_drive
