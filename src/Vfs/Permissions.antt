-- ===== src/Vfs/Permissions.antt =====
-- crates/storage/vfs/src/permissions.rs: credentials, permission checks, and the text forms of a
-- mode. User, group and mode are `u32`, which no operation here leaves. `none` outside a `VfsResult` is
-- a panic. `get_current_credentials` reads four system calls and is not modelled.
pub mod Groups
pub mod Access
pub mod Format
mod Tests
use watos.Common.{
  ℕ, zero, suc, ◌+◌, ◌-◌, ◌*◌, ◌/◌, ◌%◌, ◌^◌, ◌≤◌, ◌<◌, min, max, bit_and, bit_or, ◌≡◌, refl, sym,
  ap, ◌∙◌, ◌≢◌, ◌↔◌, ◌⊎◌, inl, inr, Bool, true, false, ◌&&◌, ◌||◌, not, Option, none, some, List,
  [], ◌∷◌, ◌++◌, map, append-nil, append_assoc, arith, ltb, leb, ◌==◌, if◌then◌else◌, ltb→lt,
  ==_iff, Bool-cases, Option-cases, length, get_elem?, get_or, set, take, drop, replicate,
  length-append, length-set, length-replicate, length-take, length-drop, take-append-drop,
  get_or-set_self, get_or-set_ne, get_or-replicate, set-out, sub_u64, add_u64, ◌>>=◌,
}
use watos.Vfs.Types.{VfsResult, ok, err, ◌>>◌, permission_denied, FileStat}

abbrev pub s_irusr : ℕ
s_irusr = 0o400

abbrev pub s_iwusr : ℕ
s_iwusr = 0o200

abbrev pub s_ixusr : ℕ
s_ixusr = 0o100

abbrev pub s_irgrp : ℕ
s_irgrp = 0o040

abbrev pub s_iwgrp : ℕ
s_iwgrp = 0o020

abbrev pub s_ixgrp : ℕ
s_ixgrp = 0o010

abbrev pub s_iroth : ℕ
s_iroth = 0o004

abbrev pub s_iwoth : ℕ
s_iwoth = 0o002

abbrev pub s_ixoth : ℕ
s_ixoth = 0o001

abbrev pub s_isuid : ℕ
s_isuid = 0o4000

abbrev pub s_isgid : ℕ
s_isgid = 0o2000

abbrev pub s_isvtx : ℕ
s_isvtx = 0o1000

abbrev pub s_ifmt : ℕ
s_ifmt = 0o170000

abbrev pub ngroups_max : ℕ
ngroups_max = 16

pub data AccessMode : Type 0 where
  to_read to_write to_execute to_read_write exists : AccessMode

pub record Credentials : Type 0 where
  pub uid : ℕ
  pub gid : ℕ
  pub euid : ℕ
  pub egid : ℕ
  pub groups : List ℕ
  pub ngroups : ℕ

unfoldable pub root : Credentials
root = record {
  uid = 0;
  gid = 0;
  euid = 0;
  egid = 0;
  groups = replicate ngroups_max 0;
  ngroups = 0;
}

-- `Credentials::new`
unfoldable pub new : ℕ → ℕ → Credentials
new uid gid = record {
  uid = uid;
  gid = gid;
  euid = uid;
  egid = gid;
  groups = replicate ngroups_max 0;
  ngroups = 0;
}

unfoldable pub is_root : Credentials → Bool
is_root c = c.euid == 0

-- the loop of `in_group` over `groups[i .. i + n]`; a read out of range panics
unfoldable pub in_groups : List ℕ → ℕ → ℕ → ℕ → Option Bool
in_groups groups i zero gid = some false
in_groups groups i (suc n) gid =
    let rest = in_groups groups (i + 1) n gid in
    get_elem? groups i >>= λ g. (if g == gid then some true else rest)

unfoldable pub in_group : Credentials → ℕ → Option Bool
unfolding in_groups
in_group c gid = if c.egid == gid then some true else in_groups c.groups 0 c.ngroups gid

unfoldable pub add_group : ℕ → Credentials → Option (Bool × Credentials)
add_group gid c =
    if leb ngroups_max c.ngroups
    then some (false, c)
    else (in_group c gid >>= λ there. some (
        if there
        then (true, c)
        else (true, record c { groups = set c.groups c.ngroups gid; ngroups = c.ngroups + 1 })))

-- the permission bits that the identity of the caller selects
unfoldable pub perm_bits : Credentials → FileStat → Option ℕ
perm_bits c s =
    if c.euid == s.uid
    then some (bit_and (s.mode / 2 ^ 6) 0o7)
    else (in_group c s.gid >>= λ member.
        some (if member then bit_and (s.mode / 2 ^ 3) 0o7 else bit_and s.mode 0o7))

unfoldable pub required : AccessMode → ℕ
required to_read = 0o4
required to_write = 0o2
required to_execute = 0o1
required to_read_write = 0o6
required exists = 0o0

-- root: an execute bit is needed to execute, nothing for the rest
unfoldable pub check_root : FileStat → AccessMode → VfsResult (Unit {0})
check_root s to_execute =
    if bit_and s.mode (bit_or (bit_or s_ixusr s_ixgrp) s_ixoth) == 0
    then err permission_denied
    else ok tt
check_root s _ = ok tt

-- `check_permission` past the branch of root
unfoldable pub check_bits : Credentials → FileStat → AccessMode → Option (VfsResult (Unit {0}))
unfolding required perm_bits
check_bits c s access = perm_bits c s >>= λ bits.
    some
      (if bit_and bits (required access) == required access then ok tt else err permission_denied)

unfoldable pub check_permission :
    Credentials → FileStat → AccessMode → Option (VfsResult (Unit {0}))
unfolding check_root check_bits is_root
check_permission c s exists = some (ok tt)
check_permission c s to_read =
    if is_root c then some (check_root s to_read) else check_bits c s to_read
check_permission c s to_write =
    if is_root c then some (check_root s to_write) else check_bits c s to_write
check_permission c s to_execute =
    if is_root c then some (check_root s to_execute) else check_bits c s to_execute
check_permission c s to_read_write =
    if is_root c then some (check_root s to_read_write) else check_bits c s to_read_write

unfoldable pub can_chmod : Credentials → FileStat → Bool
unfolding is_root
can_chmod c s = is_root c || c.euid == s.uid

unfoldable pub can_chown : Credentials → Bool
unfolding is_root
can_chown c = is_root c

unfoldable pub sticky_check : Credentials → FileStat → FileStat → VfsResult (Unit {0})
unfolding is_root
sticky_check c dir file =
    if not (bit_and dir.mode s_isvtx == 0)
      && (not (is_root c) && (not (c.euid == file.uid) && not (c.euid == dir.uid)))
    then err permission_denied
    else ok tt

unfoldable pub can_delete : Credentials → FileStat → FileStat → Option (VfsResult (Unit {0}))
unfolding sticky_check
can_delete c dir file =
    check_permission c dir to_write >>= λ allowed. some (allowed >> sticky_check c dir file)

unfoldable pub mode_permissions : ℕ → ℕ
mode_permissions mode = bit_and mode 0o7777

unfoldable pub mode_file_type : ℕ → ℕ
mode_file_type mode = bit_and mode s_ifmt

-- The sum with `b'0'` is on `u8`.
unfoldable pub format_mode_octal : ℕ → List ℕ
format_mode_octal mode =
    let perms = bit_and mode 0o7777 in
    (b'0' + bit_and (perms / 2 ^ 9) 0o7) % 256
    ∷ (b'0' + bit_and (perms / 2 ^ 6) 0o7) % 256
    ∷ (b'0' + bit_and (perms / 2 ^ 3) 0o7) % 256
    ∷ (b'0' + bit_and perms 0o7) % 256
    ∷ []

-- `mode & mask != 0`
unfoldable pub has : ℕ → ℕ → Bool
has mode mask = not (bit_and mode mask == 0)

-- an execute place: both bits, the plain letter, the special bit alone, or `-`
unfoldable pub exec_letter : Bool → Bool → ℕ → ℕ → ℕ
exec_letter true special both alone = if special then both else b'x'
exec_letter false special both alone = if special then alone else b'-'

unfoldable pub format_mode_string : ℕ → List ℕ
unfolding has exec_letter
format_mode_string mode =
    (if has mode s_irusr then b'r' else b'-')
    ∷ (if has mode s_iwusr then b'w' else b'-')
    ∷ exec_letter (has mode s_ixusr) (has mode s_isuid) b's' b'S'
    ∷ (if has mode s_irgrp then b'r' else b'-')
    ∷ (if has mode s_iwgrp then b'w' else b'-')
    ∷ exec_letter (has mode s_ixgrp) (has mode s_isgid) b's' b'S'
    ∷ (if has mode s_iroth then b'r' else b'-')
    ∷ (if has mode s_iwoth then b'w' else b'-')
    ∷ exec_letter (has mode s_ixoth) (has mode s_isvtx) b't' b'T'
    ∷ []
