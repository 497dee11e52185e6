-- ===== src/Wfs/Tree/Ops.antt =====
-- `BPlusTree` and `TreeOps` of crates/storage/wfs/src/core/tree.rs: trees on a device, changed by
-- copying. The device and the allocator are what implements the traits `BlockDevice` and
-- `BlockAllocator`; that they keep their laws is assumed where a theorem says so.
use watos.Common.{
  ℕ, ◌≡◌, ◌≢◌, Bool, true, false, Option, none, some, List, [], ◌∷◌, ◌==◌, if◌then◌else◌, add_u64,
}
use watos.Wfs.Tree.{TreeError, TreeResult, ok, err, NodeType, TreeNode}

pub record BPlusTree : Type 0 where
  pub root_block : ℕ
  pub height : ℕ
  pub node_type : NodeType
  pub generation : ℕ

unfoldable pub new : ℕ → NodeType → ℕ → BPlusTree
new root_block node_type generation = record {
  root_block = root_block;
  height = 0;
  node_type = node_type;
  generation = generation;
}

unfoldable pub is_empty : BPlusTree → Bool
is_empty t = t.root_block == 0

pub data SearchResult {ℓ} (V : Type ℓ) : Type ℓ where
  found_value : V → SearchResult V
  not_found : SearchResult V
  error : TreeError → SearchResult V

unfoldable pub is_found {ℓ} : {V : Type ℓ} → SearchResult V → Bool
is_found (found_value v) = true
is_found not_found = false
is_found (error e) = false

-- from the root to the leaf: a block, and the index of the child that was taken
abbrev pub TreePath : Type 0
TreePath = List (ℕ × ℕ)

unfoldable pub leaf_block : TreePath → Option ℕ
leaf_block [] = none
leaf_block ((b, i) ∷ []) = some b
leaf_block (x ∷ y ∷ path) = leaf_block (y ∷ path)

-- The trait `BlockDevice`: a write that succeeds is what is read there, and no other block changes.
pub record BlockDevice (D : Type 0) : Type 0 where
  pub read_node : ℕ → D → TreeResult TreeNode
  pub write_node : ℕ → TreeNode → D → TreeResult (Unit {0}) × D
  pub read_node-write_node :
      (b : ℕ) (n : TreeNode) (d : D)
      → (write_node b n d).0 ≡ ok tt
      → read_node b (write_node b n d).1 ≡ ok n
  pub read_node-write_node_ne :
      (b c : ℕ) (n : TreeNode) (d : D) → b ≢ c → read_node c (write_node b n d).1 ≡ read_node c d

-- The trait `BlockAllocator`, as far as the trees use it.
pub record BlockAllocator (A : Type 0) : Type 0 where
  pub allocate_block : A → TreeResult ℕ × A

-- the tree that is changed, and what `TreeOps` borrows
pub record World (D A : Type 0) : Type 0 where
  pub tree : BPlusTree
  pub device : D
  pub allocator : A

-- A call: it may panic (`none`), and else gives a result, with what it changed, also if it fails.
abbrev pub Action {ℓ} : (D A : Type 0) → Type ℓ → Type ℓ
Action D A B = World D A → Option (TreeResult B × World D A)

module _ {D A : Type 0} where
  unfoldable pub pure {ℓ} : {B : Type ℓ} → B → Action D A B
  pure b w = some (ok b, w)

  unfoldable pub raise {ℓ} : {B : Type ℓ} → TreeError → Action D A B
  raise e w = some (err e, w)

  unfoldable pub continue_with {ℓ κ} :
      {B : Type ℓ} {E : Type κ}
      → (B → Action D A E)
      → Option (TreeResult B × World D A)
      → Option (TreeResult E × World D A)
  continue_with f none = none
  continue_with f (some (ok b, w)) = f b w
  continue_with f (some (err e, w)) = some (err e, w)

infixl 5 ◌>>=◌ ◌>>◌
unfoldable pub ◌>>=◌ {ℓ κ} :
    {D A : Type 0} {B : Type ℓ} {E : Type κ} → Action D A B → (B → Action D A E) → Action D A E
unfolding continue_with
◌>>=◌ m f w = continue_with f (m w)

abbrev pub ◌>>◌ {κ} :
    {D A : Type 0} {E : Type κ} → Action D A (Unit {0}) → Action D A E → Action D A E
m >> k = m >>= λ _. k

module _ {D A : Type 0} where
  -- a call on a local node, which is lost if the call fails
  unfoldable pub on_node {ℓ} :
      {B : Type ℓ} → Option (TreeResult B × TreeNode) → Action D A (B × TreeNode)
  on_node none w = none
  on_node (some (ok b, n)) w = some (ok (b, n), w)
  on_node (some (err e, n)) w = some (err e, w)

  -- a value that may be a panic, and one that may be missing
  unfoldable pub or_panic {ℓ} : {B : Type ℓ} → Option B → Action D A B
  or_panic none w = none
  or_panic (some b) w = some (ok b, w)

  unfoldable pub or_raise {ℓ} : {B : Type ℓ} → TreeError → Option B → Action D A B
  unfolding raise pure
  or_raise e none = raise e
  or_raise e (some b) = pure b

  unfoldable pub raise_if : Bool → TreeError → Action D A (Unit {0})
  raise_if c e w = some (if c then err e else ok tt, w)

  unfoldable pub get_tree : Action D A BPlusTree
  get_tree w = some (ok w.tree, w)

  unfoldable pub set_tree : BPlusTree → Action D A (Unit {0})
  set_tree t w = some (ok tt, record w { tree = t })

  unfoldable pub next_generation : Action D A ℕ
  next_generation w =
      let generation = add_u64 w.tree.generation 1 in
      some (ok generation, record w { tree = record (w.tree) { generation = generation } })

  unfoldable pub set_root : ℕ → Action D A (Unit {0})
  set_root b w = some (ok tt, record w { tree = record (w.tree) { root_block = b } })
