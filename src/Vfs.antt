-- ===== src/Vfs.antt =====
-- The virtual file system of crates/storage/vfs: its shared types, pipes, permission checks,
-- and the mount table.
pub mod Types
pub mod Pipe
pub mod Permissions
pub mod Mount
