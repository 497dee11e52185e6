-- ===== src/Wfs/Transaction.antt =====
-- crates/storage/wfs/src/core/transaction.rs: `Transaction`, and the superblock of structures.rs. The
-- transactions of a file system are in the module Filesystem.
pub mod Filesystem
pub mod Work
pub mod Active
pub mod Aborts
pub mod Outcomes
pub mod Tests
use watos.Common.{
  ℕ, zero, suc, ◌+◌, ◌-◌, ◌*◌, ◌/◌, ◌%◌, ◌^◌, ◌≤◌, ◌<◌, min, max, bit_and, bit_or, ◌≡◌, refl, sym,
  ap, ◌∙◌, ◌≢◌, ◌↔◌, ◌⊎◌, inl, inr, Bool, true, false, ◌&&◌, ◌||◌, not, Option, none, some, List,
  [], ◌∷◌, ◌++◌, map, append-nil, append_assoc, arith, ltb, leb, ◌==◌, if◌then◌else◌, ltb→lt,
  ==_iff, Bool-cases, Option-cases, length, get_elem?, get_or, set, take, drop, replicate,
  length-append, length-set, length-replicate, length-take, length-drop, take-append-drop,
  get_or-set_self, get_or-set_ne, get_or-replicate, set-out, sub_u64, add_u64, is_nil,
}
use watos.Wfs.FreeSpace.{PendingFree}
use watos.Wfs.FreeSpace
use watos.Wfs.Tree.{TreeNode, TreeError, TreeResult, NodeType, inode, free_space}
use watos.Wfs.Tree
use watos.Wfs.Tree.Bytes.{to_le, crc32}
use watos.Wfs.Tree.Ops.{BPlusTree}
use watos.Wfs.Tree.Ops
use watos.Common.Slices.{overwrite}

pub data TransactionError : Type 0 where
  no_active_transaction transaction_already_active invalid_state io_error no_space too_large :
      TransactionError

pub data TransactionResult : Type 0 where
  done : TransactionResult
  failed : TransactionError → TransactionResult

pub data TransactionState : Type 0 where
  active committing committed aborted : TransactionState

pub data ModificationType : Type 0 where
  allocated copied modified : ModificationType

pub record ModifiedBlock : Type 0 where
  pub original_block : ℕ
  pub new_block : ℕ
  pub mod_type : ModificationType

pub record Transaction : Type 0 where
  pub id : ℕ
  pub state : TransactionState
  pub generation : ℕ
  pub working_root : ℕ
  pub modified_blocks : List ModifiedBlock
  pub allocated_blocks : List ℕ
  pub pending_frees : List PendingFree
  pub modified_inodes : List ℕ
  pub dirty : Bool

unfoldable pub new : ℕ → ℕ → ℕ → Transaction
new id generation current_root = record {
  id = id;
  state = active;
  generation = generation;
  working_root = current_root;
  modified_blocks = [];
  allocated_blocks = [];
  pending_frees = [];
  modified_inodes = [];
  dirty = false;
}

abbrev pub state_is_active : TransactionState → Bool
state_is_active active = true
state_is_active committing = false
state_is_active committed = false
state_is_active aborted = false

unfoldable pub is_active : Transaction → Bool
is_active t = state_is_active t.state

unfoldable pub record_allocation : ℕ → Transaction → Transaction
record_allocation block t = record t {
  allocated_blocks = t.allocated_blocks ++ block ∷ [];
  dirty = true;
}

unfoldable pub record_block : ModificationType → ℕ → ℕ → Transaction → Transaction
record_block mod_type original block t = record t {
  modified_blocks =
      t.modified_blocks
      ++ record { original_block = original; new_block = block; mod_type = mod_type } ∷ [];
  dirty = true;
}

unfoldable pub record_cow_copy : ℕ → ℕ → Transaction → Transaction
unfolding record_block
record_cow_copy = record_block copied

unfoldable pub record_modification : ℕ → ℕ → Transaction → Transaction
unfolding record_block
record_modification = record_block modified

unfoldable pub schedule_free : ℕ → ℕ → Transaction → Transaction
schedule_free block count t = record t {
  pending_frees =
      t.pending_frees ++ record { block = block; count = count; transaction_id = t.id } ∷ [];
  dirty = true;
}

abbrev pub contains : ℕ → List ℕ → Bool
contains n [] = false
contains n (x ∷ xs) = x == n || contains n xs

unfoldable pub record_inode_modification : ℕ → Transaction → Transaction
record_inode_modification inode_num t =
    if contains inode_num t.modified_inodes
    then t
    else record t { modified_inodes = t.modified_inodes ++ inode_num ∷ [] }

unfoldable pub update_working_root : ℕ → Transaction → Transaction
update_working_root new_root t = record t { working_root = new_root; dirty = true }

unfoldable pub begin_commit : Transaction → Bool × Transaction
unfolding is_active
begin_commit t = if is_active t then (true, record t { state = committing }) else (false, t)

unfoldable pub complete_commit : Transaction → Transaction
complete_commit t = record t { state = committed }

unfoldable pub abort : Transaction → Transaction
abort t = record t { state = aborted }

pub record Superblock : Type 0 where
  pub magic : ℕ
  pub version : ℕ
  pub flags : ℕ
  pub signature : List ℕ
  pub block_size : ℕ
  pub chunk_size : ℕ
  pub total_blocks : ℕ
  pub free_blocks : ℕ
  pub root_tree_block : ℕ
  pub root_generation : ℕ
  pub free_tree_block : ℕ
  pub inode_count : ℕ
  pub next_inode : ℕ
  pub data_start_block : ℕ
  pub reserved : List ℕ
  pub crc32 : ℕ
  pub pad : ℕ

-- the bytes before the check sum
unfoldable pub checked_bytes : Superblock → List ℕ
checked_bytes b =
    to_le 4 b.magic
    ++ (to_le 2 b.version
        ++ (to_le 2 b.flags
            ++ (b.signature
                ++ (to_le 4 b.block_size
                    ++ (to_le 4 b.chunk_size
                        ++ (to_le 8 b.total_blocks
                            ++ (to_le 8 b.free_blocks
                                ++ (to_le 8 b.root_tree_block
                                    ++ (to_le 8 b.root_generation
                                        ++ (to_le 8 b.free_tree_block
                                            ++ (to_le 8 b.inode_count
                                                ++ (to_le 8 b.next_inode
                                                    ++ (to_le 8 b.data_start_block
                                                        ++ b.reserved)))))))))))))

unfoldable pub calculate_crc : Superblock → ℕ
unfolding checked_bytes crc32
calculate_crc b = crc32 (checked_bytes b)

unfoldable pub update_crc : Superblock → Superblock
unfolding calculate_crc
update_crc b = record b { crc32 = calculate_crc b }
