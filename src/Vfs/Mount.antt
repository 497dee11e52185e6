-- ===== src/Vfs/Mount.antt =====
-- crates/storage/vfs/src/mount.rs: `MountTable`, the file systems that are mounted at paths and at drive
-- letters. The file systems are of any type. The paths are those of crates/core/path. The array of
-- drives has 26 places, and `drive_index` gives one of them.
pub mod Longest
pub mod Sorted
pub mod Table
pub mod Tests
use watos.Common.{
  ℕ, zero, suc, ◌+◌, ◌-◌, ◌*◌, ◌/◌, ◌%◌, ◌^◌, ◌≤◌, ◌<◌, min, max, bit_and, bit_or, ◌≡◌, refl, sym,
  ap, ◌∙◌, ◌≢◌, ◌↔◌, ◌⊎◌, inl, inr, Bool, true, false, ◌&&◌, ◌||◌, not, Option, none, some, List,
  [], ◌∷◌, ◌++◌, map, append-nil, append_assoc, arith, ltb, leb, ◌==◌, if◌then◌else◌, ltb→lt,
  ==_iff, Bool-cases, Option-cases, length, get_elem?, get_or, set, take, drop, replicate,
  length-append, length-set, length-replicate, length-take, length-drop, take-append-drop,
  get_or-set_self, get_or-set_ne, get_or-replicate, set-out, sub_u64, add_u64, is_nil,
}
use watos.FilePath.{
  PathType, unix, drive, ParsedPath, parse, normalize, slash, separator, to_ascii_uppercase,
}
use watos.FilePath.Text.{text_eq, starts_with}
use watos.Vfs.Types.{
  VfsError, VfsResult, ok, err, too_many_open_files, invalid_argument, not_mounted, already_mounted,
}

abbrev pub max_mounts : ℕ
max_mounts = 16

abbrev pub max_drives : ℕ
max_drives = 26

pub record MountPoint (F : Type 0) : Type 0 where
  pub path : List ℕ
  pub filesystem : F

pub record DriveMount (F : Type 0) : Type 0 where
  pub letter : ℕ
  pub filesystem : F
  pub label : Option (List ℕ)

pub record MountTable (F : Type 0) : Type 0 where
  pub mounts : List (MountPoint F)
  pub drives : List (Option (DriveMount F))

unfoldable pub drive_index : ℕ → Option ℕ
unfolding to_ascii_uppercase
drive_index letter =
    let upper = to_ascii_uppercase letter in
    if leb b'A' upper && leb upper b'Z' then some (upper - b'A') else none

-- `text.starts_with(prefix)`
unfoldable pub is_prefix : List ℕ → List ℕ → Bool
is_prefix [] text = true
is_prefix (x ∷ xs) [] = false
is_prefix (x ∷ xs) (y ∷ ys) = x == y && is_prefix xs ys

module _ {F : Type 0} where
  unfoldable pub new_mount : List ℕ → F → MountPoint F
  unfolding normalize
  new_mount path filesystem = record { path = normalize path; filesystem = filesystem }

  unfoldable pub new_drive : ℕ → F → DriveMount F
  unfolding to_ascii_uppercase
  new_drive letter filesystem = record {
    letter = to_ascii_uppercase letter;
    filesystem = filesystem;
    label = none;
  }

  unfoldable pub with_label : ℕ → F → List ℕ → DriveMount F
  unfolding to_ascii_uppercase
  with_label letter filesystem label = record {
    letter = to_ascii_uppercase letter;
    filesystem = filesystem;
    label = some label;
  }

  unfoldable pub new : MountTable F
  new = record { mounts = []; drives = replicate max_drives none }

  -- `iter().any(|m| m.path == normalized)`
  unfoldable pub any_at : List ℕ → List (MountPoint F) → Bool
  any_at normalized [] = false
  any_at normalized (m ∷ ms) = text_eq (m.path) normalized || any_at normalized ms

  -- The library's sort of a list is stable, so that it is the one by insertion.
  unfoldable pub insert_by_length : MountPoint F → List (MountPoint F) → List (MountPoint F)
  insert_by_length m [] = m ∷ []
  insert_by_length m (x ∷ xs) =
      if ltb (length (m.path)) (length (x.path)) then x ∷ insert_by_length m xs else m ∷ x ∷ xs

  unfoldable pub sort_by_length : List (MountPoint F) → List (MountPoint F)
  unfolding insert_by_length
  sort_by_length [] = []
  sort_by_length (m ∷ ms) = insert_by_length m (sort_by_length ms)

  unfoldable pub mount : List ℕ → F → MountTable F → VfsResult (Unit {0}) × MountTable F
  unfolding any_at sort_by_length new_mount
  mount path filesystem t =
      let normalized = normalize path in
      if any_at normalized t.mounts
      then (err already_mounted, t)
      else if leb max_mounts (length t.mounts)
      then (err too_many_open_files, t)
      else (
        ok tt,
        record t { mounts = sort_by_length (t.mounts ++ new_mount normalized filesystem ∷ []) },
      )

  -- `iter().position(|m| m.path == normalized)`
  unfoldable pub position : List ℕ → List (MountPoint F) → Option ℕ
  position normalized [] = none
  position normalized (m ∷ ms) =
      let rest = position normalized ms in
      if text_eq (m.path) normalized
      then some 0
      else elim rest [ none ↦ none | some i ↦ some (suc i) ]

  unfoldable pub unmount : List ℕ → MountTable F → VfsResult (Unit {0}) × MountTable F
  unfolding position
  unmount path t = elim (position (normalize path) t.mounts) [
    | none ↦ (err not_mounted, t)
    | some idx ↦ (ok tt, record t { mounts = take idx t.mounts ++ drop (suc idx) t.mounts })
  ]

  abbrev pub is_mounted : Option (DriveMount F) → Bool
  is_mounted none = false
  is_mounted (some a) = true

  -- what both ways to mount a drive do
  unfoldable pub put_drive : ℕ → DriveMount F → MountTable F → VfsResult (Unit {0}) × MountTable F
  unfolding drive_index
  put_drive letter d t = elim (drive_index letter) [
    | none ↦ (err invalid_argument, t)
    | some idx ↦
        if is_mounted (get_or t.drives idx none)
        then (err already_mounted, t)
        else (ok tt, record t { drives = set t.drives idx (some d) })
  ]

  unfoldable pub mount_drive : ℕ → F → MountTable F → VfsResult (Unit {0}) × MountTable F
  unfolding put_drive new_drive
  mount_drive letter filesystem t = put_drive letter (new_drive letter filesystem) t

  unfoldable pub mount_drive_labeled :
      ℕ → F → List ℕ → MountTable F → VfsResult (Unit {0}) × MountTable F
  unfolding put_drive with_label
  mount_drive_labeled letter filesystem label t =
      put_drive letter (with_label letter filesystem label) t

  unfoldable pub unmount_drive : ℕ → MountTable F → VfsResult (Unit {0}) × MountTable F
  unfolding drive_index
  unmount_drive letter t = elim (drive_index letter) [
    | none ↦ (err invalid_argument, t)
    | some idx ↦
        if is_mounted (get_or t.drives idx none)
        then (ok tt, record t { drives = set t.drives idx none })
        else (err not_mounted, t)
  ]

  unfoldable pub get_drive : ℕ → MountTable F → Option (DriveMount F)
  unfolding drive_index
  get_drive letter t = elim (drive_index letter) [
    | none ↦ none
    | some idx ↦ get_or t.drives idx none
  ]

  unfoldable pub resolve_drive : ℕ → List ℕ → MountTable F → VfsResult (F × List ℕ)
  unfolding drive_index
  resolve_drive letter rel_path t = elim (drive_index letter) [
    | none ↦ err invalid_argument
    | some idx ↦ elim (get_or t.drives idx none) [
      | none ↦ err not_mounted
      | some d ↦ ok (d.filesystem, rel_path)
    ]
  ]

  -- the loop of `resolve_path`
  unfoldable pub resolve_from : List ℕ → List (MountPoint F) → VfsResult (F × List ℕ)
  unfolding is_prefix
  resolve_from normalized [] = err not_mounted
  resolve_from normalized (m ∷ ms) =
      let rest = resolve_from normalized ms in
      let after = drop (length (m.path)) normalized in
      let is_root = text_eq (m.path) slash in
      if text_eq normalized (m.path)
      then ok (m.filesystem, slash)
      else if is_prefix (m.path) normalized
      then (if is_root || starts_with separator after
          then ok (m.filesystem, if is_root then normalized else after)
          else rest)
      else rest

  unfoldable pub resolve_path : List ℕ → MountTable F → VfsResult (F × List ℕ)
  unfolding resolve_from
  resolve_path path t = resolve_from (normalize path) t.mounts

  unfoldable pub resolve_parsed : ParsedPath → MountTable F → VfsResult (F × List ℕ)
  unfolding resolve_drive resolve_path
  resolve_parsed parsed t = elim parsed.path_type [
    | unix ↦ resolve_path parsed.path t
    | drive letter ↦ resolve_drive letter parsed.path t
  ]

  unfoldable pub resolve : List ℕ → MountTable F → VfsResult (F × List ℕ)
  unfolding resolve_parsed parse
  resolve path t = resolve_parsed (parse path) t

  unfoldable pub is_mount_point : List ℕ → MountTable F → Bool
  unfolding any_at
  is_mount_point path t = any_at (normalize path) t.mounts

  unfoldable pub find_at : List ℕ → List (MountPoint F) → Option (MountPoint F)
  find_at normalized [] = none
  find_at normalized (m ∷ ms) =
      let rest = find_at normalized ms in if text_eq (m.path) normalized then some m else rest

  unfoldable pub get_mount : List ℕ → MountTable F → Option (MountPoint F)
  unfolding find_at
  get_mount path t = find_at (normalize path) t.mounts
