-- ===== src/Wfs/Transaction/Work.antt =====
-- What changes the file system within a transaction, in crates/storage/wfs/src/core/fs.rs: `InodeOps`, and
-- `allocate_for_write` of `ExtentOps`. `TreeOps` borrows a device and an allocator; an inode is any value
-- that a tree can hold, with its number. `none` is a panic, as in the trees.
use watos.Common.{ℕ, zero, suc, ◌+◌, ◌-◌, Option, none, some, length, add_u64, ◌>>=◌}
use watos.Wfs.FreeSpace.{block_size}
use watos.Wfs.Tree.{TreeResult}
use watos.Wfs.Tree
use watos.Wfs.Tree.Values.{TreeValue}
use watos.Wfs.Tree.Ops.{BlockDevice, BlockAllocator, World, Action, SearchResult, TreePath}
use watos.Wfs.Tree.Ops
use watos.Wfs.Tree.Methods
use watos.Wfs.Extent.{Extent, round_up}
use watos.Wfs.Extent
use watos.Wfs.Transaction.{Transaction, record_allocation, record_inode_modification}
use watos.Wfs.Transaction.Filesystem.{FilesystemState}

-- the state of the file system, and what the calls borrow
pub record Store (D A : Type 0) : Type 0 where
  pub fs : FilesystemState
  pub device : D
  pub allocator : A

-- the part of `insert` and `delete` that updates the transaction
unfoldable pub note_inode : ℕ → FilesystemState → FilesystemState
unfolding record_inode_modification
note_inode inode_num s = record s {
  transaction = elim s.transaction [
    | none ↦ none
    | some t ↦
        some (record (record_inode_modification inode_num t) {
          working_root = s.inode_tree.root_block;
        })
  ];
}

-- `allocate_inode_num`, with wrapping sums
unfoldable pub allocate_inode_num : FilesystemState → ℕ × FilesystemState
allocate_inode_num s = (
  s.superblock.next_inode,
  record s {
    superblock = record (s.superblock) {
      next_inode = add_u64 s.superblock.next_inode 1;
      inode_count = add_u64 s.superblock.inode_count 1;
    };
  },
)

-- the loop of `allocate_for_write` that records `start_block + i`, for `n` values of `i` from `i` on
unfoldable pub record_run : ℕ → ℕ → ℕ → Transaction → Transaction
unfolding record_allocation
record_run zero start_block i t = t
record_run (suc n) start_block i t =
    record_run n start_block (i + 1) (record_allocation (add_u64 start_block i) t)

unfoldable pub note_run : ℕ → ℕ → FilesystemState → FilesystemState
unfolding record_run
note_run n start_block s = record s {
  transaction = elim s.transaction [ none ↦ none | some t ↦ some (record_run n start_block 0 t) ];
}

-- `value` of a `SearchResult`
unfoldable pub value_of : {V : Type 0} → SearchResult V × TreePath → Option V
value_of (Ops.found_value v, path) = some v
value_of (Ops.not_found, path) = none
value_of (Ops.error e, path) = none

unfoldable pub map_ok : {B E : Type 0} → (B → E) → TreeResult B → TreeResult E
map_ok f (Tree.ok b) = Tree.ok (f b)
map_ok f (Tree.err e) = Tree.err e

module _ {D A : Type 0} where
  -- a call of `TreeOps` on the inode tree
  unfoldable pub on_inodes :
      {B : Type 0} → Action D A B → Store D A → Option (TreeResult B × Store D A)
  on_inodes m s =
      m (record { tree = s.fs.inode_tree; device = s.device; allocator = s.allocator })
      >>= λ (r, w). some (
        r,
        record {
          fs = record (s.fs) { inode_tree = w.tree };
          device = w.device;
          allocator = w.allocator;
        },
      )

  -- what follows a call that may fail: the transaction notes the inode
  unfoldable pub noted :
      {B E : Type 0} → (B → E) → ℕ → TreeResult B × Store D A → TreeResult E × Store D A
  unfolding note_inode
  noted f inode_num (Tree.ok b, s) = (Tree.ok (f b), record s { fs = note_inode inode_num s.fs })
  noted f inode_num (Tree.err e, s) = (Tree.err e, s)

  module _ (dev : BlockDevice D) (alloc : BlockAllocator A) where
    module _ {V : Type 0} (tv : TreeValue V) (inode_num : V → ℕ) where
      unfoldable pub lookup : ℕ → Store D A → Option (TreeResult (Option V))
      unfolding on_inodes map_ok value_of
      lookup num s = on_inodes (Methods.search dev alloc tv s.fs.inode_tree num) s >>= λ (r, s').
          some (map_ok value_of r)

      -- an inode that is there is deleted first; that this may fail is passed over
      unfoldable pub insert : V → Store D A → Option (TreeResult (Unit {0}) × Store D A)
      unfolding on_inodes noted
      insert inode s =
          on_inodes (Methods.delete dev alloc tv (inode_num inode)) s >>= λ (ignored, s1).
          on_inodes (Methods.insert dev alloc tv (inode_num inode) inode) s1 >>= λ r.
          some (noted (λ root. tt) (inode_num inode) r)

      unfoldable pub delete : ℕ → Store D A → Option (TreeResult V × Store D A)
      unfolding on_inodes noted
      delete num s =
          on_inodes (Methods.delete dev alloc tv num) s >>= λ r. some (noted (λ v. v) num r)

    -- the first error of `n` allocations, and what the allocator then is
    unfoldable pub allocate_more : ℕ → A → TreeResult (Unit {0}) × A
    allocate_more zero a = (Tree.ok tt, a)
    allocate_more (suc n) a = elim (alloc.allocate_block a).0 [
      | Tree.ok b ↦ allocate_more n (alloc.allocate_block a).1
      | Tree.err e ↦ (Tree.err e, (alloc.allocate_block a).1)
    ]

    -- the extent of `count` blocks, where they could all be allocated
    unfoldable pub extent_from :
        ℕ → ℕ → ℕ → ℕ → TreeResult (Unit {0}) × A → Store D A → TreeResult Extent × Store D A
    unfolding note_run Extent.new
    extent_from file_offset length count start_block (Tree.ok t, a) s = (
      Tree.ok (Extent.new file_offset start_block length),
      record s { fs = note_run count start_block s.fs; allocator = a },
    )
    extent_from file_offset length count start_block (Tree.err e, a) s =
        (Tree.err e, record s { allocator = a })

    unfoldable pub allocate_for_write : ℕ → ℕ → Store D A → TreeResult Extent × Store D A
    unfolding allocate_more extent_from
    allocate_for_write file_offset length s =
        let count = round_up length block_size in
        elim (alloc.allocate_block s.allocator).0 [
          | Tree.ok start_block ↦
              extent_from file_offset length count start_block
                (allocate_more (count - 1) (alloc.allocate_block s.allocator).1) s
          | Tree.err e ↦ (Tree.err e, record s { allocator = (alloc.allocate_block s.allocator).1 })
        ]
