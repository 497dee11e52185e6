-- ===== src/Wfs/Tree.antt =====
-- crates/storage/wfs/src/core/node.rs and tree.rs: the B+ trees that hold all metadata of WFS. A node
-- is a block of 4096 bytes, of which 4064 hold entries; a byte is a number below 256. Keys are `u64`,
-- the one type of key there is; the values are of any type that is written in a fixed number of bytes.
-- A result of `none` outside a `TreeResult` is a panic: a slice that starts past its end.
pub mod Bytes
pub mod Values
pub mod Entries
pub mod Leaf
pub mod Checksum
pub mod Internal
pub mod Ops
pub mod Methods
pub mod Snapshot
pub mod Tests
use watos.Common.{
  ℕ, zero, suc, ◌+◌, ◌-◌, ◌*◌, ◌/◌, ◌%◌, ◌^◌, ◌≤◌, ◌<◌, min, max, bit_and, bit_or, ◌≡◌, refl, sym,
  ap, ◌∙◌, ◌≢◌, ◌↔◌, ◌⊎◌, inl, inr, Bool, true, false, ◌&&◌, ◌||◌, not, Option, none, some, List,
  [], ◌∷◌, ◌++◌, map, append-nil, append_assoc, arith, ltb, leb, ◌==◌, if◌then◌else◌, ltb→lt,
  ==_iff, Bool-cases, Option-cases, length, get_elem?, get_or, set, take, drop, replicate,
  length-append, length-set, length-replicate, length-take, length-drop, take-append-drop,
  get_or-set_self, get_or-set_ne, get_or-replicate, set-out, sub_u64, add_u64, is_nil,
}

abbrev pub node_data_size : ℕ
node_data_size = 4064

abbrev pub internal_entry_size : ℕ
internal_entry_size = 16

abbrev pub max_internal_entries : ℕ
max_internal_entries = 254

pub data TreeError : Type 0 where
  node_not_found invalid_node crc_error node_full key_not_found duplicate_key io_error empty_tree
        invalid_operation :
      TreeError

pub data TreeResult {ℓ} (A : Type ℓ) : Type ℓ where
  ok : A → TreeResult A
  err : TreeError → TreeResult A

pub data NodeType : Type 0 where
  inode directory extent free_space : NodeType

-- the discriminants of the enum
abbrev pub magic_of : NodeType → ℕ
magic_of inode = 0x494e4f44
magic_of directory = 0x44495245
magic_of extent = 0x45585445
magic_of free_space = 0x46524545

unfoldable pub from_magic : ℕ → Option NodeType
from_magic magic =
    if magic == 0x494e4f44
    then some inode
    else if magic == 0x44495245
    then some directory
    else if magic == 0x45585445
    then some extent
    else if magic == 0x46524545
    then some free_space
    else none

pub record TreeNode : Type 0 where
  pub magic : ℕ
  pub level : ℕ
  pub item_count : ℕ
  pub generation : ℕ
  pub parent_block : ℕ
  pub crc32 : ℕ
  pub pad : ℕ
  pub data_area : List ℕ

unfoldable pub new : NodeType → ℕ → ℕ → TreeNode
new node_type level generation = record {
  magic = magic_of node_type;
  level = level;
  item_count = 0;
  generation = generation;
  parent_block = 0;
  crc32 = 0;
  pad = 0;
  data_area = replicate node_data_size 0;
}

unfoldable pub new_leaf : NodeType → ℕ → TreeNode
unfolding new
new_leaf node_type generation = new node_type 0 generation

-- `none`: the assertion that the level is not 0 fails
unfoldable pub new_internal : NodeType → ℕ → ℕ → Option TreeNode
unfolding new
new_internal node_type level generation =
    if ltb 0 level then some (new node_type level generation) else none

unfoldable pub node_type : TreeNode → Option NodeType
unfolding from_magic
node_type n = from_magic n.magic
