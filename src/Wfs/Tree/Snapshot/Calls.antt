-- ===== src/Wfs/Tree/Snapshot/Calls.antt =====
-- Insertion and deletion keep the live blocks: each call, from the parts it is made of.
use watos.Common.{ℕ, zero, suc, ◌+◌, ◌-◌, Option, none, some, List, [], ◌∷◌, ◌++◌, length, take}
use watos.Wfs.Tree.{
  TreeNode, new_leaf, node_full, crc_error, invalid_node, duplicate_key, key_not_found, empty_tree,
}
use watos.Wfs.Tree.Values.{TreeValue}
use watos.Wfs.Tree.Leaf.{Place, found, insert_at}
use watos.Wfs.Tree.Ops.{BPlusTree, SearchResult, found_value, not_found, error, TreePath, pure}
use watos.Wfs.Tree.Methods.{
  copy_parents, propagate_cow, split_root, split_below, propagate_split, answer, search_from,
  search, collect, insert_all, first_key, split_leaf, insert_with_split, insert_first,
  insert_in_leaf, insert_at_path, insert, delete_at_path, delete_result, delete,
}
use watos.Wfs.Tree.Snapshot.{
  Setting, Triple, Any, bind-Triple, if-Triple, pure-Triple, raise-Triple, on_node-Triple,
  or_panic-Triple, or_raise-Triple, raise_if-Triple, get_tree-Triple, set_tree-Triple,
  next_generation-Triple, set_root-Triple, read-Triple, write-Triple, allocate-Triple,
}

module _ {D A : Type 0} (s : Setting D A) where
  copy_parents-Triple :
      (generation : ℕ) (path : TreePath) (current : ℕ)
      → Triple s (copy_parents s.dev s.alloc generation path current) (Any s)
  unfolding copy_parents
  copy_parents-Triple generation [] current = pure-Triple s current
  copy_parents-Triple generation ((parent_block, child_idx) ∷ rest) current =
      bind-Triple s (read-Triple s parent_block) λ parent _.
        bind-Triple s (or_panic-Triple s _) λ changed _.
          bind-Triple s (allocate-Triple s) λ new_block fresh.
            bind-Triple s (write-Triple s new_block _ fresh)
              λ _ _. copy_parents-Triple generation rest new_block

  propagate_cow-Triple :
      (path : TreePath) (child : ℕ) → Triple s (propagate_cow s.dev s.alloc path child) (Any s)
  unfolding propagate_cow
  propagate_cow-Triple path child = bind-Triple s (get_tree-Triple s) λ tree _.
      bind-Triple s (copy_parents-Triple tree.generation _ child)
        λ root _. bind-Triple s (set_root-Triple s root) λ _ _. pure-Triple s root

  split_root-Triple :
      (left key right : ℕ) → Triple s (split_root s.dev s.alloc left key right) (Any s)
  unfolding split_root
  split_root-Triple left key right = bind-Triple s (allocate-Triple s) λ new_root_block fresh.
      bind-Triple s (get_tree-Triple s) λ tree _. bind-Triple s (or_panic-Triple s _) λ new_root _.
        bind-Triple s (on_node-Triple s _) λ with_left _.
          bind-Triple s (on_node-Triple s _) λ with_both _.
            bind-Triple s (write-Triple s new_root_block _ fresh)
              λ _ _. bind-Triple s (set_tree-Triple s _) λ _ _. pure-Triple s new_root_block

  split_below-Triple :
      (path : TreePath) (left key right : ℕ)
      → Triple s (split_below s.dev s.alloc path left key right) (Any s)
  unfolding split_below
  split_below-Triple path left key right = bind-Triple s (or_panic-Triple s _) λ at_parent _.
      bind-Triple s (read-Triple s at_parent.0) λ parent _.
        bind-Triple s (or_panic-Triple s _) λ changed _.
          bind-Triple s (raise_if-Triple s _ node_full) λ _ _.
            bind-Triple s (on_node-Triple s _) λ full _. bind-Triple s (get_tree-Triple s) λ tree _.
              bind-Triple s (allocate-Triple s) λ new_parent_block fresh.
                bind-Triple s (write-Triple s new_parent_block _ fresh) λ _ _.
                  propagate_cow-Triple
                    (take (length path - 2) path ++ (at_parent.0, at_parent.1) ∷ [])
                    new_parent_block

  propagate_split-Triple :
      (path : TreePath) (left key right : ℕ)
      → Triple s (propagate_split s.dev s.alloc path left key right) (Any s)
  unfolding propagate_split
  propagate_split-Triple path left key right =
      if-Triple s _ (split_root-Triple left key right) (split_below-Triple path left key right)

  module _ {V : Type 0} (tv : TreeValue V) where
    answer-Triple :
        (leaf : TreeNode) (path : TreePath) (place : Place)
        → Triple s (answer s.dev s.alloc tv leaf path place) (Any s)
    unfolding answer
    answer-Triple leaf path (insert_at i) = pure-Triple s _
    answer-Triple leaf path (found i) = bind-Triple s (or_panic-Triple s _) given
      where
        given :
            (entry : Option (ℕ × V)) (t : Unit {0})
            → Triple s {B = SearchResult V × TreePath}
                (elim entry [
                  | none ↦ pure (not_found, path)
                  | some (k, value) ↦ pure (found_value value, path)
                ])
                (Any s)
        given none t = pure-Triple s _
        given (some (k, value)) t = pure-Triple s _

    search_from-Triple :
        (key level block : ℕ) (path : TreePath)
        → Triple s (search_from s.dev s.alloc tv key level block path) (Any s)
    unfolding search_from
    search_from-Triple key zero block path = bind-Triple s (read-Triple s block) λ node _.
        bind-Triple s (raise_if-Triple s _ crc_error)
          λ _ _. bind-Triple s (or_panic-Triple s _) λ place _. answer-Triple node _ place
    search_from-Triple key (suc level) block path = bind-Triple s (read-Triple s block) λ node _.
        bind-Triple s (raise_if-Triple s _ crc_error) λ _ _.
          bind-Triple s (or_raise-Triple s invalid_node _)
            λ at_child _. search_from-Triple key level at_child.1 _

    search-Triple :
        (tree : BPlusTree) (key : ℕ) → Triple s (search s.dev s.alloc tv tree key) (Any s)
    unfolding search
    search-Triple tree key =
        if-Triple s _ (pure-Triple s _) (search_from-Triple key tree.height tree.root_block [])

    collect-Triple :
        (rounds i : ℕ) (n : TreeNode) → Triple s (collect s.dev s.alloc tv rounds i n) (Any s)
    unfolding collect
    collect-Triple zero i n = pure-Triple s []
    collect-Triple (suc rounds) i n =
        bind-Triple s (or_panic-Triple s _)
          λ entry _. bind-Triple s (collect-Triple rounds (i + 1) n) λ rest _. pure-Triple s _

    insert_all-Triple :
        (entries : List (ℕ × V)) (n : TreeNode)
        → Triple s (insert_all s.dev s.alloc tv entries n) (Any s)
    unfolding insert_all
    insert_all-Triple [] n = pure-Triple s n
    insert_all-Triple ((k, v) ∷ es) n =
        bind-Triple s (on_node-Triple s _) λ changed _. insert_all-Triple es changed.1

    first_key-Triple : (n : TreeNode) → Triple s (first_key s.dev s.alloc tv n) (Any s)
    unfolding first_key
    first_key-Triple n = bind-Triple s (or_panic-Triple s _) λ entry _. pure-Triple s _

    split_leaf-Triple :
        (left right : TreeNode) (key : ℕ) (value : V)
        → Triple s (split_leaf s.dev s.alloc tv left right key value) (Any s)
    unfolding split_leaf
    split_leaf-Triple left right key value =
        bind-Triple s (collect-Triple _ _ left) λ right_entries _.
          bind-Triple s (insert_all-Triple right_entries right) λ filled _.
            bind-Triple s (first_key-Triple filled) λ first_right_key _.
              bind-Triple s
                (if-Triple s _
                  (bind-Triple s (on_node-Triple s _)
                    λ changed _. pure-Triple s (changed.1, filled))
                  (bind-Triple s (on_node-Triple s _) λ changed _. pure-Triple s _))
                λ both _. bind-Triple s (first_key-Triple both.1) λ split_key _. pure-Triple s _

    insert_with_split-Triple :
        (path : TreePath) (key : ℕ) (value : V)
        → Triple s (insert_with_split s.dev s.alloc tv path key value) (Any s)
    unfolding insert_with_split
    insert_with_split-Triple path key value =
        bind-Triple s (or_raise-Triple s empty_tree _) λ block _.
          bind-Triple s (read-Triple s block) λ node _.
            bind-Triple s (next_generation-Triple s) λ generation _.
              bind-Triple s (get_tree-Triple s) λ tree _.
                bind-Triple s
                  (split_leaf-Triple node (new_leaf tree.node_type generation) key value)
                  λ (split_key, left, right) _.
                    bind-Triple s (allocate-Triple s) λ left_block left_fresh.
                      bind-Triple s (allocate-Triple s) λ right_block right_fresh.
                        bind-Triple s (write-Triple s left_block _ left_fresh) λ _ _.
                          bind-Triple s (write-Triple s right_block _ right_fresh)
                            λ _ _. propagate_split-Triple path left_block split_key right_block

    insert_first-Triple :
        (key : ℕ) (value : V) → Triple s (insert_first s.dev s.alloc tv key value) (Any s)
    unfolding insert_first
    insert_first-Triple key value = bind-Triple s (allocate-Triple s) λ new_block fresh.
        bind-Triple s (next_generation-Triple s) λ generation _.
          bind-Triple s (get_tree-Triple s) λ tree _.
            bind-Triple s (on_node-Triple s _) λ inserted _.
              bind-Triple s (write-Triple s new_block _ fresh)
                λ _ _. bind-Triple s (set_root-Triple s new_block) λ _ _. pure-Triple s new_block

    insert_in_leaf-Triple :
        (path : TreePath) (node : TreeNode) (key : ℕ) (value : V)
        → Triple s (insert_in_leaf s.dev s.alloc tv path node key value) (Any s)
    unfolding insert_in_leaf
    insert_in_leaf-Triple path node key value = bind-Triple s (on_node-Triple s _) λ inserted _.
        bind-Triple s (allocate-Triple s) λ new_block fresh.
          bind-Triple s (write-Triple s new_block _ fresh)
            λ _ _. propagate_cow-Triple path new_block

    insert_at_path-Triple :
        (path : TreePath) (key : ℕ) (value : V)
        → Triple s (insert_at_path s.dev s.alloc tv path key value) (Any s)
    unfolding insert_at_path
    insert_at_path-Triple path key value = bind-Triple s (or_raise-Triple s empty_tree _) λ block _.
        bind-Triple s (read-Triple s block) λ node _.
          bind-Triple s (next_generation-Triple s) λ generation _.
            if-Triple s _
              (insert_in_leaf-Triple path (record node { generation = generation }) key value)
              (insert_with_split-Triple path key value)

    pub insert-Triple : (key : ℕ) (value : V) → Triple s (insert s.dev s.alloc tv key value) (Any s)
    unfolding insert
    insert-Triple key value = bind-Triple s (get_tree-Triple s) λ tree _.
        if-Triple s _ (insert_first-Triple key value) (
          bind-Triple s (search-Triple tree key) λ (result, path) _.
            bind-Triple s (raise_if-Triple s _ duplicate_key)
              λ _ _. insert_at_path-Triple path key value)

    delete_at_path-Triple :
        (path : TreePath) (key : ℕ) (value : V)
        → Triple s (delete_at_path s.dev s.alloc tv path key value) (Any s)
    unfolding delete_at_path
    delete_at_path-Triple path key value = bind-Triple s (or_raise-Triple s empty_tree _) λ block _.
        bind-Triple s (read-Triple s block) λ node _.
          bind-Triple s (next_generation-Triple s) λ generation _.
            bind-Triple s (on_node-Triple s _) λ removed _.
              bind-Triple s (allocate-Triple s) λ new_block fresh.
                bind-Triple s (write-Triple s new_block _ fresh) λ _ _.
                  bind-Triple s (propagate_cow-Triple path new_block) λ root _. pure-Triple s value

    delete_result-Triple :
        (key : ℕ) (found_at : SearchResult V × TreePath)
        → Triple s (delete_result s.dev s.alloc tv key found_at) (Any s)
    unfolding delete_result
    delete_result-Triple key (found_value value, path) = delete_at_path-Triple path key value
    delete_result-Triple key (not_found, path) = raise-Triple s key_not_found
    delete_result-Triple key (error e, path) = raise-Triple s e

    pub delete-Triple : (key : ℕ) → Triple s (delete s.dev s.alloc tv key) (Any s)
    unfolding delete
    delete-Triple key = bind-Triple s (get_tree-Triple s) λ tree _.
        bind-Triple s (raise_if-Triple s _ empty_tree) λ _ _.
          bind-Triple s (search-Triple tree key) λ found_at _. delete_result-Triple key found_at
