-- ===== src/Wfs/Tree/Leaf.antt =====
-- `LeafNode` of crates/storage/wfs/src/core/tree.rs: the entries of a leaf, sorted by key, each a key of
-- 8 bytes and a value.
use watos.Common.{
  ℕ, zero, suc, ◌+◌, ◌-◌, ◌*◌, ◌/◌, ◌%◌, ◌^◌, ◌≤◌, ◌<◌, min, max, bit_and, bit_or, ◌≡◌, refl, sym,
  ap, ◌∙◌, ◌≢◌, ◌↔◌, ◌⊎◌, inl, inr, Bool, true, false, ◌&&◌, ◌||◌, not, Option, none, some, List,
  [], ◌∷◌, ◌++◌, map, append-nil, append_assoc, arith, ltb, leb, ◌==◌, if◌then◌else◌, ltb→lt,
  ==_iff, Bool-cases, Option-cases, length, get_elem?, get_or, set, take, drop, replicate,
  length-append, length-set, length-replicate, length-take, length-drop, take-append-drop,
  get_or-set_self, get_or-set_ne, get_or-replicate, set-out, sub_u64, add_u64, is_nil, ◌>>=◌,
}
pub mod Slots
pub mod Shift
pub mod Search
pub mod Refine
pub mod Contract
use watos.Common.Slices.{overwrite}
use watos.Wfs.Tree.Bytes.{to_le, from_le}
use watos.Wfs.Tree.Values.{TreeValue}
use watos.Wfs.Tree.{
  node_data_size, node_full, duplicate_key, key_not_found, invalid_node, TreeResult, ok, err,
  TreeNode,
}

-- `Result<usize, usize>`: where the key is, or where it would go
pub data Place : Type 0 where
  found insert_at : ℕ → Place

-- `x.serialize(&mut data[off..])`: nothing is written where the bytes do not fit
unfoldable pub write_bytes : ℕ → List ℕ → List ℕ → Option (List ℕ)
write_bytes off bs xs =
    if ltb (length xs) off
    then none
    else if leb (off + length bs) (length xs)
    then some (overwrite off bs xs)
    else some xs

module _ {ℓ} {V : Type ℓ} (tv : TreeValue V) where
  abbrev pub entry_size : ℕ
  entry_size = 8 + tv.size

  abbrev pub max_entries : ℕ
  max_entries = node_data_size / entry_size

  abbrev pub with_key : ℕ → Option V → Option (ℕ × V)
  with_key key none = none
  with_key key (some value) = some (key, value)

  -- the key and the value in bytes that start with an entry
  unfoldable pub read_entry : List ℕ → Option (ℕ × V)
  read_entry bs =
      if ltb (length bs) 8
      then none
      else with_key (from_le (take 8 bs)) (tv.deserialize (drop 8 bs))

  unfoldable pub get_entry : ℕ → TreeNode → Option (Option (ℕ × V))
  unfolding read_entry
  get_entry index n =
      let offset = index * entry_size in
      if leb n.item_count index
      then some none
      else if ltb (length n.data_area) offset
      then none
      else some (read_entry (drop offset n.data_area))

  unfoldable pub set_entry : ℕ → ℕ → V → TreeNode → Option (Bool × TreeNode)
  unfolding write_bytes
  set_entry index key value n =
      let offset = index * entry_size in
      if ltb n.item_count index
      then some (false, n)
      else (write_bytes offset (to_le 8 key) n.data_area >>= λ bytes.
          write_bytes (offset + 8) (tv.serialize value) bytes >>= λ bytes'.
          some (true, record n { data_area = bytes' }))

  -- the loop of `search`, of at most `fuel` rounds: a loop that needs more is not over and gives no
  -- place (`none`, as a panic). The tests are those of `mid_key.cmp(key)`, in their order.
  unfoldable pub search_from : ℕ → ℕ → TreeNode → ℕ → ℕ → Option Place
  unfolding get_entry
  search_from zero key n left right = none
  search_from (suc fuel) key n left right =
      let mid = left + (right - left) / 2 in
      if not (ltb left right)
      then some (insert_at left)
      else (get_entry mid n >>= λ e. elim e [
        | none ↦ some (insert_at left)
        | some (mid_key, v) ↦
            if ltb mid_key key
            then search_from fuel key n (mid + 1) right
            else if ltb key mid_key
            then search_from fuel key n left mid
            else some (found mid)
      ])

  -- Each round takes at least one index from the interval, and the last finds it empty.
  unfoldable pub search : ℕ → TreeNode → Option Place
  unfolding search_from
  search key n = search_from (n.item_count + 1) key n 0 n.item_count

  -- what the loops of `insert` and `delete` do with the entry that they read
  unfoldable pub copy_entry : ℕ → Option (ℕ × V) → TreeNode → Option TreeNode
  unfolding set_entry
  copy_entry index none n = some n
  copy_entry index (some (k, v)) n = set_entry index k v n >>= λ (done, n'). some n'

  -- `for i in (pos..pos + j).rev()`: the entry at `i` goes to `i + 1`
  unfoldable pub shift_right : ℕ → ℕ → TreeNode → Option TreeNode
  unfolding get_entry copy_entry
  shift_right pos zero n = some n
  shift_right pos (suc j) n =
      get_entry (pos + j) n >>= λ e. copy_entry (pos + j + 1) e n >>= λ n'. shift_right pos j n'

  -- `for i in i..i + j`: the entry at `i + 1` goes to `i`
  unfoldable pub shift_left : ℕ → ℕ → TreeNode → Option TreeNode
  unfolding get_entry copy_entry
  shift_left i zero n = some n
  shift_left i (suc j) n =
      get_entry (i + 1) n >>= λ e. copy_entry i e n >>= λ n'. shift_left (i + 1) j n'

  unfoldable pub insert_place : ℕ → V → TreeNode → Place → Option (TreeResult (Unit {0}) × TreeNode)
  unfolding shift_right set_entry
  insert_place key value n (found i) = some (err duplicate_key, n)
  insert_place key value n (insert_at pos) = shift_right pos (n.item_count - pos) n >>= λ n'.
      set_entry pos key value n' >>= λ (done, n'').
      some (ok tt, record n'' { item_count = n''.item_count + 1 })

  unfoldable pub insert : ℕ → V → TreeNode → Option (TreeResult (Unit {0}) × TreeNode)
  unfolding search insert_place
  insert key value n =
      if leb max_entries n.item_count
      then some (err node_full, n)
      else (search key n >>= λ place. insert_place key value n place)

  -- the entry that `get_entry` gives, or the error of `ok_or`
  unfoldable pub delete_entry : ℕ → TreeNode → Option (ℕ × V) → Option (TreeResult V × TreeNode)
  unfolding shift_left
  delete_entry pos n none = some (err invalid_node, n)
  delete_entry pos n (some (k, value)) = shift_left pos (n.item_count - 1 - pos) n >>= λ n'.
      some (ok value, record n' { item_count = n'.item_count - 1 })

  unfoldable pub delete_place : TreeNode → Place → Option (TreeResult V × TreeNode)
  unfolding get_entry delete_entry
  delete_place n (insert_at pos) = some (err key_not_found, n)
  delete_place n (found pos) = get_entry pos n >>= λ e. delete_entry pos n e

  unfoldable pub delete : ℕ → TreeNode → Option (TreeResult V × TreeNode)
  unfolding search delete_place
  delete key n = search key n >>= λ place. delete_place n place

  unfoldable pub update_entry :
      ℕ → ℕ → V → TreeNode → Option (ℕ × V) → Option (TreeResult V × TreeNode)
  unfolding set_entry
  update_entry pos key value n none = some (err invalid_node, n)
  update_entry pos key value n (some (k, old_value)) =
      set_entry pos key value n >>= λ (done, n'). some (ok old_value, n')

  unfoldable pub update_place : ℕ → V → TreeNode → Place → Option (TreeResult V × TreeNode)
  unfolding get_entry update_entry
  update_place key value n (insert_at pos) = some (err key_not_found, n)
  update_place key value n (found pos) = get_entry pos n >>= λ e. update_entry pos key value n e

  unfoldable pub update : ℕ → V → TreeNode → Option (TreeResult V × TreeNode)
  unfolding search update_place
  update key value n = search key n >>= λ place. update_place key value n place

  unfoldable pub is_full : TreeNode → Bool
  is_full n = leb max_entries n.item_count

  unfoldable pub needs_split : TreeNode → Bool
  needs_split n = ltb (max_entries / 2) n.item_count
