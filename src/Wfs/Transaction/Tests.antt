-- ===== src/Wfs/Transaction/Tests.antt =====
-- Runs of transactions on a disk that only counts its writes, and on one whose writes fail.
use watos.Common.{ℕ, ◌+◌, ◌≡◌, refl, true, none, some, replicate, ◌∷◌, List, Option, [], ◌++◌}
use watos.Wfs.Tree.{TreeError, TreeResult, NodeType, inode}
use watos.Wfs.Tree
use watos.Wfs.Tree.Ops.{BPlusTree}
use watos.Wfs.Transaction.{
  TransactionResult, done, Transaction, new, is_active, Superblock, update_working_root,
}
use watos.Wfs.Transaction.Filesystem.{
  has_active_transaction, FilesystemState, new_state, root_block, Disk, begin_transaction,
  commit_with, commit_transaction, write_commit, write_superblock, sync, free_all, finish,
}
use watos.Wfs.Transaction.Outcomes.{
  KeepsRoots, Stuck, commit_transaction-done, commit_transaction-failed,
}
use watos.Wfs.Transaction.Work.{Store, allocate_for_write}
use watos.Wfs.Transaction.Work
use watos.Wfs.Transaction.Active.{blocks_in}
use watos.Wfs.Extent.{Extent}
use watos.Wfs.Extent
use watos.Wfs.Tree.Values.{u64_value}
use watos.Wfs.Tree.Methods
use watos.Wfs.Tree.Ops
use watos.Wfs.Tree.Tests.{Blocks, memory, counter}

abbrev counting : Disk ℕ
counting = record {
  write_node = λ b n d. (Tree.ok tt, d + 1);
  sync = λ d. (Tree.ok tt, d);
  free_block = λ b d. (Tree.ok tt, d);
  free_blocks = λ start count s d. (done, (s, d));
}

abbrev broken : Disk ℕ
broken = record (counting) { write_node = λ b n d. (Tree.err Tree.io_error, d) }

abbrev block_zero : Superblock
block_zero = record {
  magic = 0x57465331;
  version = 3;
  flags = 0;
  signature = replicate 64 0;
  block_size = 4096;
  chunk_size = 65536;
  total_blocks = 1000;
  free_blocks = 990;
  root_tree_block = 20;
  root_generation = 4;
  free_tree_block = 0;
  inode_count = 3;
  next_inode = 4;
  data_start_block = 2;
  reserved = replicate 104 0;
  crc32 = 0;
  pad = 0;
}

abbrev tree : BPlusTree
tree = record { root_block = 31; height = 0; node_type = inode; generation = 5 }

abbrev mounted : FilesystemState
mounted = new_state block_zero

abbrev txn : Transaction
txn = update_working_root 31 (new 1 5 20)

abbrev begun : FilesystemState
begun = record mounted { inode_tree = tree; transaction = some txn; next_txn_id = 2 }

begun-txn : begun.transaction ≡ some txn
unfolding new_state begin_transaction has_active_transaction update_working_root new
begun-txn = refl

txn_active : is_active txn ≡ true
unfolding is_active new update_working_root
txn_active = refl

counting-KeepsRoots : KeepsRoots counting
counting-KeepsRoots start count s d = refl

abbrev after_commit : TransactionResult × (FilesystemState × ℕ)
after_commit = commit_transaction counting begun 0

commits : commit_transaction counting begun 0 ≡ (done, (after_commit.1.0, after_commit.1.1))
unfolding new_state begin_transaction has_active_transaction update_working_root new
    commit_transaction commit_with is_active write_commit write_superblock sync free_all finish
commits = refl

-- two writes of the superblock
commit_writes : after_commit.1.1 ≡ 2
unfolding new_state begin_transaction has_active_transaction update_working_root new
    commit_transaction commit_with is_active write_commit write_superblock sync free_all finish
commit_writes = refl

commit_transaction-done_example :
    (after_commit.1.0.transaction ≡ none)
    × (root_block after_commit.1.0 ≡ txn.working_root)
    × (after_commit.1.0.superblock.root_generation ≡ txn.generation)
    × (after_commit.1.0.inode_tree.root_block ≡ txn.working_root)
    × (after_commit.1.0.inode_tree.generation ≡ txn.generation)
commit_transaction-done_example =
    commit_transaction-done counting begun after_commit.1.0 0 after_commit.1.1 txn
      counting-KeepsRoots begun-txn txn_active commits

commit_transaction-failed_example :
    Stuck broken txn.working_root (commit_transaction broken begun 0)
commit_transaction-failed_example =
    commit_transaction-failed broken begun 0 txn Tree.io_error begun-txn txn_active refl

-- a device that lists the blocks that it is given back
abbrev listing : Disk (List ℕ)
listing = record {
  write_node = λ b n e. (Tree.ok tt, e);
  sync = λ e. (Tree.ok tt, e);
  free_block = λ b e. (Tree.ok tt, e ++ b ∷ []);
  free_blocks = λ start count s e. (done, (s, e));
}

-- a file system without inodes
abbrev empty_fs : FilesystemState
empty_fs = new_state (record block_zero { root_tree_block = 0 })

abbrev opened : Store Blocks ℕ
opened = record {
  fs = (begin_transaction listing empty_fs []).1.0;
  device = λ b. none;
  allocator = 9;
}

abbrev after_call :
    {B : Type 0} → Option (TreeResult B × Store Blocks ℕ) → TreeResult B × Store Blocks ℕ
after_call none = (Tree.err Tree.io_error, opened)
after_call (some r) = r

abbrev with_inode : TreeResult (Unit {0}) × Store Blocks ℕ
with_inode = after_call (Work.insert memory counter u64_value (λ v. v) 5 opened)

inserted_root : with_inode.1.fs.inode_tree.root_block ≡ 9
unfolding begin_transaction has_active_transaction new_state Work.insert Work.on_inodes Work.noted
    Methods.insert Methods.delete u64_value Ops.◌>>=◌ Ops.get_tree Ops.raise_if Ops.on_node Ops.pure
inserted_root = refl

-- an inode in block 9, and an extent of two blocks from block 10 on
abbrev extent_call : TreeResult Extent × Store Blocks ℕ
extent_call = allocate_for_write memory counter 0 5000 with_inode.1

extent_blocks : blocks_in extent_call.0 ≡ 10 ∷ 11 ∷ []
unfolding begin_transaction has_active_transaction new_state Work.insert Work.on_inodes Work.noted
    Methods.insert Methods.delete u64_value Ops.◌>>=◌ Ops.get_tree Ops.raise_if Ops.on_node Ops.pure
    allocate_for_write Extent.block_count
extent_blocks = refl
