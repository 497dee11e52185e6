-- ===== src/Wfs/Tree/Methods.antt =====
-- `TreeOps` of crates/storage/wfs/src/core/tree.rs: search, insertion and deletion.
use mathlib.Core.List.{reverse}
use watos.Common.{
  ℕ, zero, suc, ◌+◌, ◌-◌, ◌/◌, ◌%◌, ◌^◌, not, Option, none, some, List, [], ◌∷◌, ◌++◌, ltb, leb,
  if◌then◌else◌, length, get_elem?, take,
}
use watos.Wfs.Tree.Bytes.{to_le, from_le}
use watos.Wfs.Tree.Values.{TreeValue}
use watos.Wfs.Tree.{
  max_internal_entries, node_full, crc_error, invalid_node, duplicate_key, key_not_found,
  empty_tree, TreeNode, new_leaf, new_internal,
}
use watos.Wfs.Tree.Checksum.{is_valid, update_crc}
use watos.Wfs.Tree.Leaf.{Place, found, insert_at, get_entry, is_full}
use watos.Wfs.Tree.Leaf
use watos.Wfs.Tree.Internal.{get_key, find_child, set_entry}
use watos.Wfs.Tree.Internal
use watos.Wfs.Tree.Ops.{
  BPlusTree, is_empty, SearchResult, found_value, not_found, error, is_found, TreePath, leaf_block,
  BlockDevice, BlockAllocator, Action, pure, raise, ◌>>=◌, ◌>>◌, on_node, or_panic, or_raise,
  raise_if, get_tree, set_tree, next_generation, set_root,
}

-- the key as its bytes read as a number
abbrev pub key_bytes : ℕ → ℕ
key_bytes key = from_le (to_le 8 key)

module _ {D A : Type 0} (dev : BlockDevice D) (alloc : BlockAllocator A) where
  unfoldable pub read : ℕ → Action D A TreeNode
  read b w = some (dev.read_node b w.device, w)

  unfoldable pub write : ℕ → TreeNode → Action D A (Unit {0})
  write b n w =
      let done = dev.write_node b n w.device in some (done.0, record w { device = done.1 })

  unfoldable pub allocate : Action D A ℕ
  allocate w =
      let done = alloc.allocate_block w.allocator in some (done.0, record w { allocator = done.1 })

  -- `parent` with the pointer of a child replaced, if there is a key for the child
  unfoldable pub replace_child : ℕ → ℕ → Option ℕ → TreeNode → Option TreeNode
  unfolding set_entry
  replace_child child_idx child none parent = some parent
  replace_child child_idx child (some key) parent = set_entry child_idx key child parent

  -- the loop of `propagate_cow`, from the parent of the leaf up to the root: the new block of the root
  unfoldable pub copy_parents : ℕ → TreePath → ℕ → Action D A ℕ
  unfolding read write allocate replace_child get_key update_crc
  copy_parents generation [] current = pure current
  copy_parents generation ((parent_block, child_idx) ∷ rest) current = do
    parent ← read parent_block
    changed ← or_panic (replace_child child_idx current (get_key child_idx parent) parent)
    new_block ← allocate
    write new_block (update_crc (record changed { generation = generation }))
    copy_parents generation rest new_block

  unfoldable pub propagate_cow : TreePath → ℕ → Action D A ℕ
  unfolding copy_parents set_root
  propagate_cow path new_child_block = do
    tree ← get_tree
    root ← copy_parents tree.generation (reverse (take (length path - 1) path)) new_child_block
    set_root root
    pure root

  -- `propagate_split` where the leaf is the root: a new root over the two leaves
  unfoldable pub split_root : ℕ → ℕ → ℕ → Action D A ℕ
  unfolding allocate write update_crc new_internal Internal.insert
  split_root left_block split_key right_block = do
    new_root_block ← allocate
    tree ← get_tree
    new_root ←
        or_panic (new_internal tree.node_type ((tree.height % 2 ^ 16 + 1) % 2 ^ 16) tree.generation)
    (done, with_left) ← on_node (Internal.insert 0 left_block new_root)
    (done', with_both) ← on_node (Internal.insert split_key right_block with_left)
    write new_root_block (update_crc with_both)
    set_tree (record tree { root_block = new_root_block; height = (tree.height + 1) % 2 ^ 32 })
    pure new_root_block

  -- `propagate_split` below a parent
  unfoldable pub split_below : TreePath → ℕ → ℕ → ℕ → Action D A ℕ
  unfolding allocate read write update_crc replace_child get_key Internal.insert propagate_cow
  split_below path left_block split_key right_block = do
    let parent_idx = length path - 2
    (parent_block, child_idx) ← or_panic (get_elem? path parent_idx)
    parent ← read parent_block
    changed ← or_panic (replace_child child_idx left_block (get_key child_idx parent) parent)
    raise_if (leb max_internal_entries changed.item_count) node_full
    (done, full) ← on_node (Internal.insert split_key right_block changed)
    tree ← get_tree
    new_parent_block ← allocate
    write new_parent_block (update_crc (record full { generation = tree.generation }))
    propagate_cow (take parent_idx path ++ (parent_block, child_idx) ∷ []) new_parent_block

  unfoldable pub propagate_split : TreePath → ℕ → ℕ → ℕ → Action D A ℕ
  unfolding split_root split_below
  propagate_split path left_block split_key right_block =
      if leb (length path) 1
      then split_root left_block split_key right_block
      else split_below path left_block split_key right_block

  module _ {V : Type 0} (tv : TreeValue V) where
    -- what `search` answers in a leaf
    unfoldable pub answer : TreeNode → TreePath → Place → Action D A (SearchResult V × TreePath)
    unfolding get_entry
    answer leaf path (insert_at i) = pure (not_found, path)
    answer leaf path (found i) = do
      entry ← or_panic (get_entry tv i leaf)
      elim entry [
        | none ↦ pure (not_found, path)
        | some (k, value) ↦ pure (found_value value, path)
      ]

    -- the loop of `search`, at `level` levels above the leaves
    unfoldable pub search_from : ℕ → ℕ → ℕ → TreePath → Action D A (SearchResult V × TreePath)
    unfolding read is_valid find_child Leaf.search answer
    search_from key zero block path = do
      node ← read block
      raise_if (not (is_valid node)) crc_error
      place ← or_panic (Leaf.search tv key node)
      answer node (path ++ (block, 0) ∷ []) place
    search_from key (suc level) block path = do
      node ← read block
      raise_if (not (is_valid node)) crc_error
      (index, child) ← or_raise invalid_node (find_child (key_bytes key) node)
      search_from key level child (path ++ (block, index) ∷ [])

    unfoldable pub search : BPlusTree → ℕ → Action D A (SearchResult V × TreePath)
    unfolding search_from is_empty
    search tree key =
        if is_empty tree
        then pure (not_found, [])
        else search_from key tree.height tree.root_block []

    -- the entries from `i` on, `rounds` of them, that can be read
    unfoldable pub collect : ℕ → ℕ → TreeNode → Action D A (List (ℕ × V))
    unfolding get_entry
    collect zero i n = pure []
    collect (suc rounds) i n = do
      entry ← or_panic (get_entry tv i n)
      rest ← collect rounds (i + 1) n
      pure (elim entry [ none ↦ rest | some e ↦ e ∷ rest ])

    unfoldable pub insert_all : List (ℕ × V) → TreeNode → Action D A TreeNode
    unfolding Leaf.insert
    insert_all [] n = pure n
    insert_all ((k, v) ∷ es) n = do (done, n') ← on_node (Leaf.insert tv k v n); insert_all es n'

    -- the first key of a leaf, or 0
    unfoldable pub first_key : TreeNode → Action D A ℕ
    unfolding get_entry
    first_key n = do
      entry ← or_panic (get_entry tv 0 n)
      pure (elim entry [ none ↦ 0 | some (k, v) ↦ key_bytes k ])

    -- the split key, and the two leaves
    unfoldable pub split_leaf : TreeNode → TreeNode → ℕ → V → Action D A (ℕ × TreeNode × TreeNode)
    unfolding collect insert_all first_key Leaf.insert
    split_leaf left right new_key new_value = do
      let mid = left.item_count / 2
      right_entries ← collect (left.item_count - mid) mid left
      let cut : TreeNode = record left { item_count = mid }
      filled ← insert_all right_entries right
      first_right_key ← first_key filled
      (left', right') ←
          (if ltb (key_bytes new_key) first_right_key
            then on_node (Leaf.insert tv new_key new_value cut) >>= (λ (done, l). pure (l, filled))
            else on_node (Leaf.insert tv new_key new_value filled) >>= (λ (done, r). pure (cut, r)))
      split_key ← first_key right'
      pure (split_key, left', right')

    unfoldable pub insert_with_split : TreePath → ℕ → V → Action D A ℕ
    unfolding read write allocate split_leaf update_crc propagate_split next_generation leaf_block
        new_leaf
    insert_with_split path key value = do
      block ← or_raise empty_tree (leaf_block path)
      node ← read block
      generation ← next_generation
      tree ← get_tree
      (split_key, left, right) ← split_leaf node (new_leaf tree.node_type generation) key value
      left_block ← allocate
      right_block ← allocate
      write left_block (update_crc (record left { generation = generation }))
      write right_block (update_crc right)
      propagate_split path left_block split_key right_block

    unfoldable pub insert_first : ℕ → V → Action D A ℕ
    unfolding write allocate update_crc next_generation set_root new_leaf Leaf.insert
    insert_first key value = do
      new_block ← allocate
      generation ← next_generation
      tree ← get_tree
      (done, node) ← on_node (Leaf.insert tv key value (new_leaf tree.node_type generation))
      write new_block (update_crc node)
      set_root new_block
      pure new_block

    -- the leaf has room
    unfoldable pub insert_in_leaf : TreePath → TreeNode → ℕ → V → Action D A ℕ
    unfolding write allocate update_crc propagate_cow Leaf.insert
    insert_in_leaf path node key value = do
      (done, node') ← on_node (Leaf.insert tv key value node)
      new_block ← allocate
      write new_block (update_crc node')
      propagate_cow path new_block

    unfoldable pub insert_at_path : TreePath → ℕ → V → Action D A ℕ
    unfolding read insert_in_leaf insert_with_split next_generation leaf_block is_full
    insert_at_path path key value = do
      block ← or_raise empty_tree (leaf_block path)
      node ← read block
      generation ← next_generation
      if not (is_full tv node)
          then insert_in_leaf path (record node { generation = generation }) key value
          else insert_with_split path key value

    unfoldable pub insert : ℕ → V → Action D A ℕ
    unfolding search insert_first insert_at_path is_empty is_found
    insert key value = do
      tree ← get_tree
      if is_empty tree then insert_first key value else (do
        (result, path) ← search tree key
        raise_if (is_found result) duplicate_key
        insert_at_path path key value)

    unfoldable pub delete_at_path : TreePath → ℕ → V → Action D A V
    unfolding read write allocate update_crc propagate_cow next_generation leaf_block Leaf.delete
    delete_at_path path key value = do
      block ← or_raise empty_tree (leaf_block path)
      node ← read block
      generation ← next_generation
      (old, node') ← on_node (Leaf.delete tv key (record node { generation = generation }))
      new_block ← allocate
      write new_block (update_crc node')
      root ← propagate_cow path new_block
      pure value

    unfoldable pub delete_result : ℕ → SearchResult V × TreePath → Action D A V
    unfolding delete_at_path
    delete_result key (found_value value, path) = delete_at_path path key value
    delete_result key (not_found, path) = raise key_not_found
    delete_result key (error e, path) = raise e

    unfoldable pub delete : ℕ → Action D A V
    unfolding search delete_result is_empty
    delete key = do
      tree ← get_tree
      raise_if (is_empty tree) empty_tree
      found_at ← search tree key
      delete_result key found_at
