-- ===== src/Wfs/Transaction/Filesystem.antt =====
-- `FilesystemState`, and `begin_transaction`, `commit_transaction` and `abort_transaction` of
-- `FilesystemOps`, in crates/storage/wfs/src/core/fs.rs. What implements that trait is a parameter.
use watos.Common.{ℕ, Bool, false, Option, none, some, List, [], ◌∷◌, ◌++◌, if◌then◌else◌, add_u64}
use watos.Wfs.FreeSpace.{PendingFree}
use watos.Wfs.Tree.{TreeNode, TreeError, TreeResult, NodeType, inode, free_space}
use watos.Wfs.Tree
use watos.Wfs.Tree.Bytes.{to_le}
use watos.Wfs.Tree.Ops.{BPlusTree}
use watos.Wfs.Tree.Ops
use watos.Common.Slices.{overwrite}
use watos.Wfs.Transaction.{
  TransactionResult, Transaction, new, is_active, begin_commit, complete_commit, Superblock,
  checked_bytes, update_crc, no_active_transaction, transaction_already_active, invalid_state,
  io_error, done, failed,
}

pub record FilesystemState : Type 0 where
  pub superblock : Superblock
  pub inode_tree : BPlusTree
  pub free_tree : BPlusTree
  pub transaction : Option Transaction
  pub next_txn_id : ℕ

unfoldable pub new_state : Superblock → FilesystemState
unfolding Ops.new
new_state b = record {
  superblock = b;
  inode_tree = Ops.new b.root_tree_block inode b.root_generation;
  free_tree = Ops.new b.free_tree_block free_space b.root_generation;
  transaction = none;
  next_txn_id = 1;
}

unfoldable pub has_active_transaction : FilesystemState → Bool
unfolding is_active
has_active_transaction s = elim s.transaction [ none ↦ false | some t ↦ is_active t ]

unfoldable pub root_block : FilesystemState → ℕ
root_block s = elim s.transaction [ none ↦ s.superblock.root_tree_block | some t ↦ t.working_root ]

-- What a `FilesystemOps` is made of, besides the methods that the trait defines.
pub record Disk (D : Type 0) : Type 0 where
  pub write_node : ℕ → TreeNode → D → TreeResult (Unit {0}) × D
  pub sync : D → TreeResult (Unit {0}) × D
  pub free_block : ℕ → D → TreeResult (Unit {0}) × D
  pub free_blocks : ℕ → ℕ → FilesystemState → D → TransactionResult × (FilesystemState × D)

-- A call that may fail, on the state and the disk.
abbrev pub Step : Type 0 → Type 0
Step D = FilesystemState → D → TransactionResult × (FilesystemState × D)

abbrev pub continue_with :
    {D : Type 0}
    → Step D
    → TransactionResult × (FilesystemState × D)
    → TransactionResult × (FilesystemState × D)
continue_with k (done, (s, d)) = k s d
continue_with k (failed e, (s, d)) = (failed e, (s, d))

-- one call after another, unless the first fails
abbrev pub and_then : {D : Type 0} → Step D → Step D → Step D
and_then m k s d = continue_with k (m s d)

-- a call of the device, whose errors are errors of input and output
abbrev pub io_result {ℓ} :
    {D : Type 0} {A : Type ℓ}
    → FilesystemState
    → TreeResult A × D
    → TransactionResult × (FilesystemState × D)
io_result s (Tree.ok a, d) = (done, (s, d))
io_result s (Tree.err e, d) = (failed io_error, (s, d))

-- the superblock as its 256 bytes
unfoldable pub superblock_bytes : Superblock → List ℕ
unfolding checked_bytes
superblock_bytes b = checked_bytes b ++ (to_le 4 b.crc32 ++ to_le 4 b.pad)

unfoldable pub superblock_node : Superblock → TreeNode
unfolding superblock_bytes Tree.new
superblock_node b =
    let node = Tree.new inode 0 0 in
    record node { data_area = overwrite 0 (superblock_bytes b) node.data_area }

-- the superblock and the transaction, where a commit has begun
unfoldable pub publish : Transaction → FilesystemState → FilesystemState
unfolding begin_commit update_crc
publish t s = record s {
  transaction = some (begin_commit t).1;
  superblock =
      update_crc (record (s.superblock) {
        root_tree_block = t.working_root;
        root_generation = t.generation;
      });
}

-- the transaction where its commit is complete
unfoldable pub completed : FilesystemState → FilesystemState
unfolding complete_commit
completed s = record s {
  transaction = elim s.transaction [ none ↦ none | some t ↦ some (complete_commit t) ];
}

-- the end of a commit
unfoldable pub finish : FilesystemState → FilesystemState
finish s = record s {
  transaction = none;
  inode_tree = record (s.inode_tree) {
    root_block = s.superblock.root_tree_block;
    generation = s.superblock.root_generation;
  };
}

module _ {D : Type 0} (disk : Disk D) where
  unfoldable pub write_superblock : ℕ → Step D
  unfolding superblock_node
  write_superblock block s d = io_result s (disk.write_node block (superblock_node s.superblock) d)

  unfoldable pub sync : Step D
  sync s d = io_result s (disk.sync d)

  unfoldable pub begin_transaction : Step D
  unfolding has_active_transaction new
  begin_transaction s d =
      if has_active_transaction s then (failed transaction_already_active, (s, d)) else (
        done,
        (
          record s {
            next_txn_id = add_u64 s.next_txn_id 1;
            transaction = some (
                new s.next_txn_id (add_u64 s.superblock.root_generation 1)
                  s.superblock.root_tree_block);
          },
          d,
        ),
      )

  -- the loop of `commit_transaction` over the blocks to free
  unfoldable pub free_all : List PendingFree → Step D
  free_all [] s d = (done, (s, d))
  free_all (p ∷ ps) s d = continue_with (free_all ps) (disk.free_blocks p.block p.count s d)

  -- `commit_transaction` from the first write on, for the transaction `t`
  unfoldable pub write_commit : Transaction → Step D
  unfolding write_superblock sync free_all completed finish
  write_commit t = and_then (write_superblock 0) (
      and_then sync (
        and_then (write_superblock 1) (
          and_then (λ s d. free_all t.pending_frees (completed s) d)
            (λ s d. (done, (finish s, d))))))

  unfoldable pub commit_with : Option Transaction → Step D
  unfolding is_active publish write_commit
  commit_with none s d = (failed no_active_transaction, (s, d))
  commit_with (some t) s d =
      if is_active t then write_commit t (publish t s) d else (failed invalid_state, (s, d))

  unfoldable pub commit_transaction : Step D
  unfolding commit_with
  commit_transaction s d = commit_with s.transaction s d

  -- the blocks of the transaction, given back; errors are passed over
  unfoldable pub release : List ℕ → D → D
  release [] d = d
  release (b ∷ bs) d = release bs (disk.free_block b d).1

  unfoldable pub abort_transaction : Step D
  unfolding is_active release
  abort_transaction s d = elim s.transaction [
    | none ↦ (failed no_active_transaction, (s, d))
    | some t ↦
        if is_active t
        then (done, (record s { transaction = none }, release t.allocated_blocks d))
        else (failed invalid_state, (s, d))
  ]
