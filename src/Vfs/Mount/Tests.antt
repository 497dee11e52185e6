-- ===== src/Vfs/Mount/Tests.antt =====
-- Runs of the mount table, with numbers for file systems.
use watos.Common.{ℕ, ◌≡◌, refl, false, List, [], ◌∷◌, arith}
use watos.FilePath.{
  normalize, run_steps, step, slash, parse, parse_as, is_drive_letter, is_letter,
  to_ascii_uppercase, normalize_jailed, run_jailed, step_jailed, replace,
}
use watos.FilePath.Text.{text_eq, split_on, join_with, starts_with}
use watos.Vfs.Types.{ok}
use watos.Vfs.Mount.{MountTable, new, new_mount, mount, resolve_path, resolve, drive_index}
use watos.Vfs.Mount.Longest.{covers, longest, answer}
use watos.Vfs.Mount.Table.{
  Call, mount_at, mount_letter, run, Valid, run-new-Valid, resolve_path-longest, mount-resolve_path,
}

abbrev root : List ℕ
root = b'/' ∷ []

abbrev mnt : List ℕ
mnt = b'/' ∷ b'm' ∷ []

abbrev below_mnt : List ℕ
below_mnt = b'/' ∷ b'm' ∷ b'/' ∷ b'x' ∷ []

abbrev beside_mnt : List ℕ
beside_mnt = b'/' ∷ b'm' ∷ b'n' ∷ []

abbrev calls : List (Call ℕ)
calls = mount_at root 1 ∷ mount_at mnt 2 ∷ mount_letter b'c' 3 ∷ []

-- the longer mount path is found first, and only by whole components
resolve-below : resolve_path below_mnt (run calls new) ≡ ok (2, b'/' ∷ b'x' ∷ [])
unfolding resolve_path run new text_eq run_steps split_on step join_with starts_with
resolve-below = refl

resolve-beside : resolve_path beside_mnt (run calls new) ≡ ok (1, beside_mnt)
unfolding resolve_path run new text_eq run_steps split_on step join_with starts_with
resolve-beside = refl

resolve-drive : resolve (b'C' ∷ b':' ∷ b'x' ∷ []) (run calls new) ≡ ok (3, b'/' ∷ b'x' ∷ [])
unfolding resolve run new text_eq run_steps split_on step join_with starts_with parse parse_as
    is_drive_letter is_letter to_ascii_uppercase normalize_jailed run_jailed step_jailed replace
    drive_index
resolve-drive = refl

run-new-Valid_example : Valid (run calls new)
run-new-Valid_example = run-new-Valid calls

resolve_path-longest_example :
    resolve_path below_mnt (run calls new)
    ≡ answer (normalize below_mnt) (longest (normalize below_mnt) (run calls new).mounts)
resolve_path-longest_example = resolve_path-longest calls below_mnt

abbrev at_root : MountTable ℕ
at_root = (mount root 1 new).1

abbrev with_mnt : MountTable ℕ
with_mnt = (mount mnt 2 at_root).1

at_root-Valid : Valid at_root
unfolding mount new text_eq run_steps split_on step join_with starts_with
at_root-Valid = record { sorted = refl; few = omega arith; places = refl }

mnt_mounted : mount mnt 2 at_root ≡ (ok tt, with_mnt)
unfolding mount new text_eq run_steps split_on step join_with starts_with
mnt_mounted = refl

beside_uncovered : covers {F = ℕ} (normalize beside_mnt) (new_mount (normalize mnt) 2) ≡ false
unfolding covers normalize new_mount text_eq run_steps split_on step join_with starts_with
beside_uncovered = refl

mount-resolve_path_example :
    (resolve_path mnt with_mnt ≡ ok (2, slash))
    × (resolve_path beside_mnt with_mnt ≡ resolve_path beside_mnt at_root)
mount-resolve_path_example =
    mount-resolve_path mnt beside_mnt 2 at_root with_mnt at_root-Valid mnt_mounted beside_uncovered
