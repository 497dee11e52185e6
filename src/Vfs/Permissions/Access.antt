-- ===== src/Vfs/Permissions/Access.antt =====
-- The checks decide what the mode's bits say, and what follows for deletion.
use watos.Common.{
  ℕ, zero, suc, ◌+◌, ◌/◌, ◌^◌, ◌<◌, bit_and, ◌≡◌, refl, inl, inr, Bool, true, some, ◌&&◌, ◌||◌, not,
  arith, ◌==◌, if◌then◌else◌, Bool-cases,
}
use watos.Common.Bits.{get_bit, get_bit-bit_and, and-pow-zero, and_lowest, and-zero}
use watos.Vfs.Types.{ok, err, permission_denied, FileStat}
use watos.Vfs.Permissions.{
  Credentials, AccessMode, to_read, to_write, to_execute, to_read_write, exists, perm_bits,
  check_permission, check_bits, check_root, can_delete, VfsResult,
}
use watos.Vfs.Permissions.Groups.{HasRoom, contains, members, in_group-contains}

-- where the three bits of the caller's class stand: owner, group or other
abbrev pub class_shift : Credentials → FileStat → ℕ
class_shift c s = if c.euid == s.uid then 6 else if contains (members c) s.gid then 3 else 0

-- The bits of the mode that grant an access.
abbrev pub grants : ℕ → ℕ → AccessMode → Bool
grants mode shift to_read = get_bit mode (shift + 2)
grants mode shift to_write = get_bit mode (shift + 1)
grants mode shift to_execute = get_bit mode shift
grants mode shift to_read_write = get_bit mode (shift + 2) && get_bit mode (shift + 1)
grants mode shift exists = true

-- What root may do: everything but execute a file that nobody may execute.
abbrev pub root_may : ℕ → AccessMode → Bool
root_may mode to_execute = get_bit mode 6 || (get_bit mode 3 || get_bit mode 0)
root_may mode _ = true

abbrev pub permitted : Credentials → FileStat → AccessMode → Bool
permitted c s access =
    if c.euid == 0 then root_may s.mode access else grants s.mode (class_shift c s) access

test_four : (x : ℕ) → (bit_and x 4 == 4) ≡ get_bit x 2
test_four x = ground (
  arith,
  and_lowest x 4,
  and_lowest (x / 2) 2,
  and_lowest (x / 2 / 2) 1,
  and-zero (x / 2 / 2 / 2),
)

test_two : (x : ℕ) → (bit_and x 2 == 2) ≡ get_bit x 1
test_two x = ground (arith, and_lowest x 2, and_lowest (x / 2) 1, and-zero (x / 2 / 2))

test_one : (x : ℕ) → (bit_and x 1 == 1) ≡ get_bit x 0
test_one x = ground (arith, and_lowest x 1, and-zero (x / 2))

test_six : (x : ℕ) → (bit_and x 6 == 6) ≡ (get_bit x 2 && get_bit x 1)
test_six x = ground (
  arith,
  and_lowest x 6,
  and_lowest (x / 2) 3,
  and_lowest (x / 2 / 2) 1,
  and-zero (x / 2 / 2 / 2),
)

low_three : (x i : ℕ) → i < 3 → get_bit (bit_and x 7) i ≡ get_bit x i
low_three x zero h = rw (get_bit-bit_and 0 x 7) (ground arith)
low_three x (suc zero) h = rw (get_bit-bit_and 1 x 7) (ground arith)
low_three x (suc (suc zero)) h = rw (get_bit-bit_and 2 x 7) (ground arith)
low_three x (suc (suc (suc i))) h = absurd (omega arith)

shift_six : (m i : ℕ) → get_bit (m / 2 ^ 6) i ≡ get_bit m (6 + i)
shift_six m i =
    let place : 6 + i ≡ suc (suc (suc (suc (suc (suc i))))) = omega arith in
    let halves : m / 2 ^ 6 ≡ m / 2 / 2 / 2 / 2 / 2 / 2 = omega arith in rw (place, halves)

shift_three : (m i : ℕ) → get_bit (m / 2 ^ 3) i ≡ get_bit m (3 + i)
shift_three m i =
    let place : 3 + i ≡ suc (suc (suc i)) = omega arith in
    let halves : m / 2 ^ 3 ≡ m / 2 / 2 / 2 = omega arith in rw (place, halves)

-- the bits of the mode that `check_permission` reads
abbrev class_bits : Credentials → FileStat → ℕ
class_bits c s = bit_and (s.mode / 2 ^ class_shift c s) 7

perm_bits-class_bits :
    (c : Credentials) (s : FileStat) → HasRoom c → perm_bits c s ≡ some (class_bits c s)
unfolding perm_bits
perm_bits-class_bits c s v = elim (Bool-cases (c.euid == s.uid)) [
  | inl owner ↦ rw owner refl
  | inr other ↦
      rw (other, in_group-contains c s.gid v)
        (elim (Bool-cases (contains (members c) s.gid)) [
          | inl member ↦ rw member refl
          | inr stranger ↦
              let whole : s.mode / 2 ^ 0 ≡ s.mode = omega arith in rw (stranger, whole) refl
        ])
]

-- A class's three bits are bits of the mode.
get_bit-class_bits :
    (c : Credentials) (s : FileStat) (i : ℕ)
    → i < 3
    → get_bit (class_bits c s) i ≡ get_bit s.mode (class_shift c s + i)
get_bit-class_bits c s i h = elim (Bool-cases (c.euid == s.uid)) [
  | inl owner ↦ rw (owner, low_three (s.mode / 2 ^ 6) i h) (shift_six s.mode i)
  | inr other ↦ rw other (elim (Bool-cases (contains (members c) s.gid)) [
    | inl member ↦ rw (member, low_three (s.mode / 2 ^ 3) i h) (shift_three s.mode i)
    | inr stranger ↦
        let same : 0 + i ≡ i = omega arith in
        let whole : s.mode / 2 ^ 0 ≡ s.mode = omega arith in
        rw (stranger, whole, low_three s.mode i h, same)
  ])
]

-- a decision as the result that the checks give
abbrev pub decided : Bool → VfsResult (Unit {0})
decided allowed = if allowed then ok tt else err permission_denied

check_bits-grants :
    (c : Credentials) (s : FileStat) (access : AccessMode)
    → HasRoom c
    → check_bits c s access ≡ some (decided (grants s.mode (class_shift c s) access))
unfolding check_bits
check_bits-grants c s to_read v =
    rw
      (
        perm_bits-class_bits c s v,
        test_four (class_bits c s),
        get_bit-class_bits c s 2 (omega arith),
      )
      refl
check_bits-grants c s to_write v =
    rw
      (
        perm_bits-class_bits c s v,
        test_two (class_bits c s),
        get_bit-class_bits c s 1 (omega arith),
      )
      refl
check_bits-grants c s to_execute v =
    let at_zero : class_shift c s + 0 ≡ class_shift c s = omega arith in
    rw
      (
        perm_bits-class_bits c s v,
        test_one (class_bits c s),
        get_bit-class_bits c s 0 (omega arith),
        at_zero,
      )
      refl
check_bits-grants c s to_read_write v =
    rw
      (
        perm_bits-class_bits c s v,
        test_six (class_bits c s),
        get_bit-class_bits c s 2 (omega arith),
        get_bit-class_bits c s 1 (omega arith),
      )
      refl
check_bits-grants c s exists v =
    rw (perm_bits-class_bits c s v) (ground (arith, and-zero (class_bits c s)))

any_execute : (m : ℕ) → (bit_and m 73 == 0) ≡ not (get_bit m 6 || (get_bit m 3 || get_bit m 0))
any_execute m = ground (
  arith,
  and_lowest m 73,
  and_lowest (m / 2) 36,
  and_lowest (m / 2 / 2) 18,
  and_lowest (m / 2 / 2 / 2) 9,
  and_lowest (m / 2 / 2 / 2 / 2) 4,
  and_lowest (m / 2 / 2 / 2 / 2 / 2) 2,
  and_lowest (m / 2 / 2 / 2 / 2 / 2 / 2) 1,
  and-zero (m / 2 / 2 / 2 / 2 / 2 / 2 / 2),
)

check_root-root_may :
    (s : FileStat) (access : AccessMode)
    → check_root s access ≡ (if root_may s.mode access then ok tt else err permission_denied)
unfolding check_root
check_root-root_may s to_execute = ground (arith, any_execute s.mode)
check_root-root_may s _ = refl

-- Where the groups in use are at most 16, in an array of 16: `check_permission` does not panic, and
-- succeeds exactly where the mode's bits for the caller's class permit the access, or the caller is
-- root, who may do all but execute a file without any execute bit; else it is `PermissionDenied`.
pub check_permission-permitted :
    (c : Credentials) (s : FileStat) (access : AccessMode)
    → HasRoom c
    → check_permission c s access ≡ some (decided (permitted c s access))
unfolding check_permission
check_permission-permitted c s exists v = ground arith
check_permission-permitted c s to_read v = ground (arith, check_bits-grants c s to_read v)
check_permission-permitted c s to_write v = ground (arith, check_bits-grants c s to_write v)
check_permission-permitted c s to_execute v =
    ground (arith, check_bits-grants c s to_execute v, check_root-root_may s to_execute)
check_permission-permitted c s to_read_write v =
    ground (arith, check_bits-grants c s to_read_write v)

-- May the caller delete the file, as far as the sticky bit of the directory says?
abbrev pub sticky_allows : Credentials → FileStat → FileStat → Bool
sticky_allows c dir file =
    not (get_bit dir.mode 9) || (c.euid == 0 || (c.euid == file.uid || c.euid == dir.uid))

-- Where the groups in use are at most 16, in an array of 16: `can_delete` does not panic, and allows
-- exactly where writing to the directory is permitted and the directory is not sticky, or the caller
-- is root, the file's owner or the directory's owner; else it is `PermissionDenied`.
pub can_delete-permitted :
    (c : Credentials) (dir file : FileStat)
    → HasRoom c
    → can_delete c dir file ≡ some (decided (permitted c dir to_write && sticky_allows c dir file))
unfolding can_delete
can_delete-permitted c dir file v =
    rw (check_permission-permitted c dir to_write v) (ground (arith, and-pow-zero 9 dir.mode))
