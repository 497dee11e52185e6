-- ===== src/Vfs/Mount/Table.antt =====
-- The mount table over sequences of calls, and what a mount changes.
use watos.Common.{
  ℕ, suc, ◌≤◌, ◌≡◌, refl, sym, ap, ◌∙◌, inl, inr, true, false, Option, none, some, List, [], ◌∷◌,
  ◌++◌, arith, leb, Bool-cases, Option-cases, length, get_or, set, take, drop, length-append,
  length-set, length-take, length-drop,
}
use watos.FilePath.{normalize, slash}
use watos.FilePath.Parts.{text_eq_refl}
use watos.FilePath.Idempotent.{normalize-normalize}
use watos.Vfs.Types.{VfsResult, ok, err, not_mounted, already_mounted, too_many_open_files}
use watos.Vfs.Mount.{
  MountPoint, DriveMount, MountTable, new, new_mount, new_drive, with_label, any_at, sort_by_length,
  mount, position, unmount, put_drive, mount_drive, mount_drive_labeled, unmount_drive, drive_index,
  is_mounted, resolve_path, max_mounts, max_drives,
}
use watos.Vfs.Mount.Longest.{
  covers, longest, descending, answer, within, resolve_from-longest, longest-sort,
}
use watos.Vfs.Mount.Sorted.{
  descending-sort, length-sort, descending-removed, longest-own, longest-other,
}

-- the calls that change a table
pub data Call (F : Type 0) : Type 0 where
  mount_at : List ℕ → F → Call F
  unmount_at : List ℕ → Call F
  mount_letter : ℕ → F → Call F
  mount_labeled : ℕ → F → List ℕ → Call F
  unmount_letter : ℕ → Call F

module _ {F : Type 0} where
  -- The mounts stand with the longest path first, there are at most 16, and the drives have 26 places.
  pub record Valid (t : MountTable F) : Type 0 where
    pub sorted : descending t.mounts ≡ true
    pub few : length t.mounts ≤ max_mounts
    pub places : length t.drives ≡ max_drives

  unfoldable pub after : Call F → MountTable F → MountTable F
  unfolding mount unmount mount_drive mount_drive_labeled unmount_drive
  after (mount_at path filesystem) t = (mount path filesystem t).1
  after (unmount_at path) t = (unmount path t).1
  after (mount_letter letter filesystem) t = (mount_drive letter filesystem t).1
  after (mount_labeled letter filesystem label) t =
      (mount_drive_labeled letter filesystem label t).1
  after (unmount_letter letter) t = (unmount_drive letter t).1

  unfoldable pub run : List (Call F) → MountTable F → MountTable F
  unfolding after
  run [] t = t
  run (c ∷ cs) t = run cs (after c t)

  mount-Valid : (path : List ℕ) (fs : F) (t : MountTable F) → Valid t → Valid (mount path fs t).1
  unfolding mount
  mount-Valid path fs t v = elim (Bool-cases (any_at (normalize path) t.mounts)) [
    | inl b ↦ rw b v
    | inr f ↦ elim (Bool-cases (leb max_mounts (length t.mounts))) [
      | inl b ↦ rw (f, b) v
      | inr g ↦
          let ms = t.mounts ++ new_mount (normalize path) fs ∷ [] in
          rw (f, g)
            record {
              sorted = descending-sort ms;
              few = ground (
                arith,
                length-sort ms,
                length-append t.mounts (new_mount (normalize path) fs ∷ []),
              );
              places = v.places;
            }
    ]
  ]

  removed-Valid :
      (i : ℕ) (t : MountTable F)
      → Valid t
      → Valid (record t { mounts = take i t.mounts ++ drop (suc i) t.mounts })
  removed-Valid i t v = record {
    sorted = descending-removed i t.mounts v.sorted;
    few =
        let n = v.few in
        ground (
          arith,
          length-append (take i t.mounts) (drop (suc i) t.mounts),
          length-take i t.mounts,
          length-drop (suc i) t.mounts,
        );
    places = v.places;
  }

  unmount-Valid : (path : List ℕ) (t : MountTable F) → Valid t → Valid (unmount path t).1
  unfolding unmount
  unmount-Valid path t v = by_place (position (normalize path) t.mounts)
    where
      by_place :
          (o : Option ℕ)
          → Valid
              (elim o as (λ _. VfsResult (Unit {0}) × MountTable F) [
                | none ↦ (err not_mounted, t)
                | some idx ↦
                    (ok tt, record t { mounts = take idx t.mounts ++ drop (suc idx) t.mounts })
              ]).1
      by_place none = v
      by_place (some idx) = removed-Valid idx t v

  drives-Valid :
      (idx : ℕ) (d : Option (DriveMount F)) (t : MountTable F)
      → Valid t
      → Valid (record t { drives = set t.drives idx d })
  drives-Valid idx d t v = record {
    sorted = v.sorted;
    few = v.few;
    places = length-set t.drives idx d ∙ v.places;
  }

  put_drive-Valid :
      (letter : ℕ) (d : DriveMount F) (t : MountTable F) → Valid t → Valid (put_drive letter d t).1
  unfolding put_drive
  put_drive-Valid letter d t v = elim (Option-cases (drive_index letter)) [
    | inl e ↦ rw (e, put_drive) v
    | inr (idx, e) ↦ elim (Bool-cases (is_mounted (get_or t.drives idx none))) [
      | inl b ↦ rw (e, put_drive, b) v
      | inr f ↦ rw (e, put_drive, f) (drives-Valid idx (some d) t v)
    ]
  ]

  unmount_drive-Valid : (letter : ℕ) (t : MountTable F) → Valid t → Valid (unmount_drive letter t).1
  unfolding unmount_drive
  unmount_drive-Valid letter t v = elim (Option-cases (drive_index letter)) [
    | inl e ↦ rw (e, unmount_drive) v
    | inr (idx, e) ↦ elim (Bool-cases (is_mounted (get_or t.drives idx none))) [
      | inl b ↦ rw (e, unmount_drive, b) (drives-Valid idx none t v)
      | inr f ↦ rw (e, unmount_drive, f) v
    ]
  ]

  after-Valid : (c : Call F) (t : MountTable F) → Valid t → Valid (after c t)
  unfolding after mount_drive mount_drive_labeled
  after-Valid (mount_at path fs) t v = mount-Valid path fs t v
  after-Valid (unmount_at path) t v = unmount-Valid path t v
  after-Valid (mount_letter letter fs) t v = put_drive-Valid letter (new_drive letter fs) t v
  after-Valid (mount_labeled letter fs label) t v =
      put_drive-Valid letter (with_label letter fs label) t v
  after-Valid (unmount_letter letter) t v = unmount_drive-Valid letter t v

  run-Valid : (cs : List (Call F)) (t : MountTable F) → Valid t → Valid (run cs t)
  unfolding run
  run-Valid [] t v = v
  run-Valid (c ∷ cs) t v = run-Valid cs (after c t) (after-Valid c t v)

  new-Valid : Valid new
  unfolding new
  new-Valid = record { sorted = refl; few = omega arith; places = refl }

  -- After any sequence of calls from an empty table, the mounts stand with the longest path first,
  -- there are at most 16, and the drives have their 26 places.
  pub run-new-Valid : (cs : List (Call F)) → Valid (run cs new)
  run-new-Valid cs = run-Valid cs new new-Valid

  -- After any sequence of calls from an empty table, a path resolves to the longest mount path that is
  -- the normalised path or whole components at its front, with what follows it there; where there is
  -- none, it is `NotMounted`.
  pub resolve_path-longest :
      (cs : List (Call F)) (path : List ℕ)
      → resolve_path path (run cs new)
        ≡ answer (normalize path) (longest (normalize path) (run cs new).mounts)
  unfolding resolve_path
  resolve_path-longest cs path =
      resolve_from-longest (normalize path) (run cs new).mounts (run-new-Valid cs).sorted

  mounted_lem :
      (path : List ℕ) (fs : F) (t t' : MountTable F)
      → mount path fs t ≡ (ok tt, t')
      → (any_at (normalize path) t.mounts ≡ false)
        × (t'.mounts ≡ sort_by_length (t.mounts ++ new_mount (normalize path) fs ∷ []))
  unfolding mount
  mounted_lem path fs t t' h = elim (Bool-cases (any_at (normalize path) t.mounts)) [
    | inl b ↦
        let clash = rw b at h in let c : err already_mounted ≡ ok tt = ap (λ r. r.0) clash in cc
    | inr f ↦ elim (Bool-cases (leb max_mounts (length t.mounts))) [
      | inl b ↦
          let clash = rw (f, b) at h in
          let c : err too_many_open_files ≡ ok tt = ap (λ r. r.0) clash in cc
      | inr g ↦
          let done = rw (f, g) at h in
          (f, sym (ap (λ (r : VfsResult (Unit {0}) × MountTable F). r.1.mounts) done))
    ]
  ]

  within-own :
      (path : List ℕ) (m : MountPoint F) → m.path ≡ path → within path m ≡ (m.filesystem, slash)
  unfolding within
  within-own path m e = rw (e, text_eq_refl path) refl

  -- Where a mount at a path succeeds, the path then resolves to that file system, at its root; and a
  -- path that the new mount does not cover resolves as it did before.
  pub mount-resolve_path :
      (path other : List ℕ) (fs : F) (t t' : MountTable F)
      → Valid t
      → mount path fs t ≡ (ok tt, t')
      → covers (normalize other) (new_mount (normalize path) fs) ≡ false
      → (resolve_path path t' ≡ ok (fs, slash)) × (resolve_path other t' ≡ resolve_path other t)
  unfolding resolve_path
  mount-resolve_path path other fs t t' v h g =
      let (new_path, listed) = mounted_lem path fs t t' h in
      let m = new_mount (normalize path) fs in
      let ms = t.mounts ++ m ∷ [] in
      let placed : m.path ≡ normalize path = unfold new_mount in normalize-normalize path in
      let sorted : descending t'.mounts ≡ true = rw listed (descending-sort ms) in
      let chosen : (p : List ℕ) → longest p t'.mounts ≡ longest p ms =
        λ p. rw listed (longest-sort p ms) in
      let own = longest-own (normalize path) m t.mounts placed new_path in
      let rest = longest-other (normalize other) m t.mounts g in
      (
        resolve_from-longest (normalize path) t'.mounts sorted
            ∙ ap (answer (normalize path)) (chosen (normalize path) ∙ own)
            ∙ ap ok (within-own (normalize path) m placed ∙ unfold new_mount in refl),
        resolve_from-longest (normalize other) t'.mounts sorted
            ∙ ap (answer (normalize other)) (chosen (normalize other) ∙ rest)
            ∙ sym (resolve_from-longest (normalize other) t.mounts v.sorted),
      )
