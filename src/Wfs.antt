-- ===== src/Wfs.antt =====
-- The WFS file system of crates/storage/wfs/src/core: free block ranges, file extents, the trees of its
-- metadata and its transactions.
pub mod FreeSpace
pub mod Extent
pub mod Tree
pub mod Transaction
