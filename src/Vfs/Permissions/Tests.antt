-- ===== src/Vfs/Permissions/Tests.antt =====
-- Checks of the source's test cases, and the theorems at such inputs.
use watos.Common.{ℕ, ◌≡◌, refl, ◌&&◌, [], ◌∷◌, arith, replicate, some, none}
use watos.Vfs.Types.{ok, err, permission_denied, FileStat, default_stat, regular}
use watos.Vfs.Permissions.{
  Credentials, root, new, to_read, to_write, to_execute, check_permission, can_delete, in_group,
  format_mode_octal, format_mode_string, ngroups_max,
}
use watos.Vfs.Permissions.Groups.{HasRoom}
use watos.Vfs.Permissions.Access.{
  permitted, decided, sticky_allows, check_permission-permitted, can_delete-permitted,
}
use watos.Vfs.Permissions.Format.{mode_of, mode_of-format_mode_string}

abbrev stat_of : ℕ → ℕ → ℕ → FileStat
stat_of mode uid gid = record default_stat {
  file_type = regular;
  mode = mode;
  uid = uid;
  gid = gid;
}

owner_reads : check_permission (new 1000 1000) (stat_of 0o700 1000 2000) to_read ≡ some (ok tt)
unfolding check_permission new in_group
owner_reads = refl

root_needs_x :
    check_permission root (stat_of 0o000 1000 1000) to_execute ≡ some (err permission_denied)
unfolding check_permission root
root_needs_x = refl

group_denied :
    check_permission (new 2000 2000) (stat_of 0o700 1000 1000) to_read
    ≡ some (err permission_denied)
unfolding check_permission new in_group
group_denied = refl

format_755 :
    format_mode_string 0o755 ≡ b'r' ∷ b'w' ∷ b'x' ∷ b'r' ∷ b'-' ∷ b'x' ∷ b'r' ∷ b'-' ∷ b'x' ∷ []
unfolding format_mode_string
format_755 = refl

octal_644 : format_mode_octal 0o644 ≡ b'0' ∷ b'6' ∷ b'4' ∷ b'4' ∷ []
unfolding format_mode_octal
octal_644 = refl

abbrev user : Credentials
user = record (new 1000 1000) {
  groups = replicate ngroups_max 0;
  egid = 1000;
  euid = 1000;
  ngroups = 0;
}

user-HasRoom : HasRoom user
user-HasRoom = omega arith

-- a count of groups past the 16 places: the loop reads out of the array
groups_past_end : in_group (record user { groups = replicate 16 0; ngroups = 17 }) 7 ≡ none
unfolding in_group
groups_past_end = refl

check_permission-permitted_example :
    check_permission user (stat_of 0o640 5 1000) to_read
    ≡ some (decided (permitted user (stat_of 0o640 5 1000) to_read))
check_permission-permitted_example =
    check_permission-permitted user (stat_of 0o640 5 1000) to_read user-HasRoom

can_delete-permitted_example :
    can_delete user (stat_of 0o1777 0 0) (stat_of 0o644 1000 1000)
    ≡ some (
        decided (
          permitted user (stat_of 0o1777 0 0) to_write
          && sticky_allows user (stat_of 0o1777 0 0) (stat_of 0o644 1000 1000)))
can_delete-permitted_example =
    can_delete-permitted user (stat_of 0o1777 0 0) (stat_of 0o644 1000 1000) user-HasRoom

mode_of-format_mode_string_example : mode_of (format_mode_string 0o4755) ≡ 0o4755
mode_of-format_mode_string_example = mode_of-format_mode_string 0o4755
