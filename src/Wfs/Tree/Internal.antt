-- ===== src/Wfs/Tree/Internal.antt =====
-- `InternalNode` of crates/storage/wfs/src/core/tree.rs: keys with the blocks of the children, each 8
-- bytes. Child `i` holds the keys from key `i` on, and child 0 all lower ones too.
use watos.Common.{
  ℕ, zero, suc, ◌+◌, ◌-◌, ◌*◌, ◌/◌, not, Option, none, some, List, ltb, leb, ◌==◌, if◌then◌else◌,
  length, take, drop, ◌>>=◌,
}
use watos.Common.Slices.{overwrite}
use watos.Wfs.Tree.Bytes.{to_le, from_le}
use watos.Wfs.Tree.{
  internal_entry_size, max_internal_entries, TreeNode, TreeResult, ok, err, node_full,
}

-- the number in the 8 bytes from `offset` on, if they are in the data
unfoldable pub read_word : ℕ → List ℕ → Option ℕ
read_word offset xs =
    if leb (offset + 8) (length xs) then some (from_le (take 8 (drop offset xs))) else none

unfoldable pub get_child : ℕ → TreeNode → Option ℕ
unfolding read_word
get_child index n =
    if leb n.item_count index then none else read_word (index * internal_entry_size + 8) n.data_area

unfoldable pub get_key : ℕ → TreeNode → Option ℕ
unfolding read_word
get_key index n =
    if leb n.item_count index then none else read_word (index * internal_entry_size) n.data_area

-- `data[offset..offset + 8].copy_from_slice(..)`
unfoldable pub write_word : ℕ → ℕ → List ℕ → Option (List ℕ)
write_word offset word xs =
    if leb (offset + 8) (length xs) then some (overwrite offset (to_le 8 word) xs) else none

unfoldable pub set_entry : ℕ → ℕ → ℕ → TreeNode → Option TreeNode
unfolding write_word
set_entry index key child n =
    let offset = index * internal_entry_size in
    write_word offset key n.data_area >>= λ bytes.
    write_word (offset + 8) child bytes >>= λ bytes'. some (record n { data_area = bytes' })

-- the loop of `find_child`, `fuel` rounds at most: how many keys are not above `key`
unfoldable pub find_from : ℕ → ℕ → TreeNode → ℕ → ℕ → ℕ
unfolding get_key
find_from zero key n left right = left
find_from (suc fuel) key n left right =
    let mid = left + (right - left) / 2 in
    if not (ltb left right) then left else elim (get_key mid n) [
      | none ↦ left
      | some mid_key ↦
          if ltb key mid_key
          then find_from fuel key n left mid
          else find_from fuel key n (mid + 1) right
    ]

abbrev pub with_index : ℕ → Option ℕ → Option (ℕ × ℕ)
with_index i none = none
with_index i (some c) = some (i, c)

unfoldable pub find_child : ℕ → TreeNode → Option (ℕ × ℕ)
unfolding find_from get_child
find_child key n =
    let left = find_from n.item_count key n 0 n.item_count in
    let child_idx = if ltb 0 left then left - 1 else 0 in
    if n.item_count == 0 then none else with_index child_idx (get_child child_idx n)

-- the loop of `insert` that finds the position: `rounds` left, at `i`
unfoldable pub insert_position : ℕ → ℕ → ℕ → ℕ → TreeNode → ℕ
unfolding get_key
insert_position zero i pos key n = pos
insert_position (suc rounds) i pos key n = elim (get_key i n) [
  | none ↦ insert_position rounds (i + 1) pos key n
  | some k ↦ if ltb key k then pos else insert_position rounds (i + 1) (i + 1) key n
]

unfoldable pub copy_pair : ℕ → Option ℕ → Option ℕ → TreeNode → Option TreeNode
unfolding set_entry
copy_pair index (some k) (some c) n = set_entry index k c n
copy_pair index _ _ n = some n

-- `for i in (pos..pos + j).rev()`: the pair at `i` goes to `i + 1`
unfoldable pub shift_pairs : ℕ → ℕ → TreeNode → Option TreeNode
unfolding get_key get_child copy_pair
shift_pairs pos zero n = some n
shift_pairs pos (suc j) n =
    copy_pair (pos + j + 1) (get_key (pos + j) n) (get_child (pos + j) n) n >>= λ n'.
    shift_pairs pos j n'

unfoldable pub insert : ℕ → ℕ → TreeNode → Option (TreeResult (Unit {0}) × TreeNode)
unfolding insert_position shift_pairs set_entry
insert key child n =
    let pos = insert_position n.item_count 0 0 key n in
    if leb max_internal_entries n.item_count
    then some (err node_full, n)
    else (shift_pairs pos (n.item_count - pos) n >>= λ n'. set_entry pos key child n' >>= λ n''.
        some (ok tt, record n'' { item_count = n''.item_count + 1 }))
