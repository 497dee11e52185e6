-- ===== src/Vfs/Types.antt =====
-- crates/storage/vfs/src/error.rs and file.rs: errors, results, file types and `FileStat`.
use watos.Common.{ℕ}

-- `FsError` carries a code of 32 bits.
pub data VfsError : Type 0 where
  not_found permission_denied already_exists not_a_directory is_a_directory : VfsError
  directory_not_empty no_space read_only too_many_open_files invalid_argument io_error : VfsError
  cross_device name_too_long path_too_long invalid_path not_mounted already_mounted busy : VfsError
  not_initialized not_supported invalid_name not_a_file corrupted : VfsError
  fs_error : ℕ → VfsError

pub data VfsResult {ℓ} (A : Type ℓ) : Type ℓ where
  ok : A → VfsResult A
  err : VfsError → VfsResult A

infixl 5 ◌>>=◌ ◌>>◌
abbrev pub ◌>>=◌ {ℓ κ} : {A : Type ℓ} {B : Type κ} → VfsResult A → (A → VfsResult B) → VfsResult B
ok a >>= f = f a
err e >>= f = err e

abbrev pub ◌>>◌ {ℓ} : {B : Type ℓ} → VfsResult (Unit {0}) → VfsResult B → VfsResult B
m >> k = m >>= λ _. k

pub data FileType : Type 0 where
  regular directory symlink block_device char_device fifo socket unknown : FileType

pub record FileStat : Type 0 where
  pub file_type : FileType
  pub size : ℕ
  pub nlink : ℕ
  pub inode : ℕ
  pub dev : ℕ
  pub mode : ℕ
  pub uid : ℕ
  pub gid : ℕ
  pub blksize : ℕ
  pub blocks : ℕ
  pub atime : ℕ
  pub mtime : ℕ
  pub ctime : ℕ

-- `FileStat::default()`
abbrev pub default_stat : FileStat
default_stat = record {
  file_type = unknown;
  size = 0;
  nlink = 1;
  inode = 0;
  dev = 0;
  mode = 0;
  uid = 0;
  gid = 0;
  blksize = 512;
  blocks = 0;
  atime = 0;
  mtime = 0;
  ctime = 0;
}
