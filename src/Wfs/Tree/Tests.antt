-- ===== src/Wfs/Tree/Tests.antt =====
-- Runs of the trees' code on the device of crates/storage/wfs/src/core/tests.rs, whose blocks are a map in
-- memory, and whose allocator counts up; here it starts at block 9.
use watos.Common.{
  ℕ, zero, suc, ◌+◌, ◌≤◌, ◌<◌, ◌≡◌, refl, ◌≢◌, true, false, Option, none, some, List, [], ◌∷◌,
  arith, ltb, leb, ◌==◌, if◌then◌else◌, get_elem?, ◌++◌, length, replicate, ◌-◌,
}
use watos.Wfs.Tree.{
  node_not_found, duplicate_key, TreeResult, ok, err, TreeNode, inode, new_leaf, node_data_size,
  node_type,
}
use watos.Wfs.Tree.Values.{u64_value}
use watos.Wfs.Tree.Ops.{
  BPlusTree, BlockDevice, BlockAllocator, World, SearchResult, found_value, not_found,
}
use watos.Wfs.Tree.Ops
use watos.Wfs.Tree.Bytes.{to_le}
use watos.Wfs.Tree.Entries.{lookup, locate}
use watos.Wfs.Tree.Checksum.{is_valid, update_crc, is_valid-update_crc}
use watos.Wfs.Tree.Leaf.{max_entries}
use watos.Wfs.Tree.Leaf
use watos.Wfs.Tree.Leaf.Slots.{slot}
use watos.Wfs.Tree.Leaf.Search.{IsLeaf, search-locate}
use watos.Wfs.Tree.Leaf.Contract.{Inserts, Deletes, insert-Inserts, delete-Deletes}
use watos.Wfs.Tree.Methods.{insert, delete, search}
use watos.Wfs.Tree.Snapshot.{Setting}
use watos.Wfs.Tree.Snapshot.Readers.{result_of, Stays}
use watos.Wfs.Tree.Snapshot.Isolation.{
  read-Changes, search-Changes, Changes, start, inserted, deleted,
}

abbrev pub Blocks : Type 0
Blocks = ℕ → Option TreeNode

abbrev node_at : Option TreeNode → TreeResult TreeNode
node_at none = err node_not_found
node_at (some n) = ok n

abbrev read_block : ℕ → Blocks → TreeResult TreeNode
read_block b d = node_at (d b)

abbrev write_block : ℕ → TreeNode → Blocks → TreeResult (Unit {0}) × Blocks
write_block b n d = (ok tt, λ c. if c == b then some n else d c)

pub read_block-write_block :
    (b : ℕ) (n : TreeNode) (d : Blocks)
    → (write_block b n d).0 ≡ ok tt
    → read_block b (write_block b n d).1 ≡ ok n
read_block-write_block b n d h = let e : (b == b) ≡ true = ground arith in rw e refl

pub read_block-write_block_ne :
    (b c : ℕ) (n : TreeNode) (d : Blocks)
    → b ≢ c
    → read_block c (write_block b n d).1 ≡ read_block c d
read_block-write_block_ne b c n d h = let e : (c == b) ≡ false = ground arith in rw e refl

abbrev pub memory : BlockDevice Blocks
memory = record {
  read_node = read_block;
  write_node = write_block;
  read_node-write_node = read_block-write_block;
  read_node-write_node_ne = read_block-write_block_ne;
}

abbrev pub counter : BlockAllocator ℕ
counter = record { allocate_block = λ n. (ok n, n + 1) }

counter-fresh : (n : ℕ) → 10 ≤ n → (b : ℕ) → (counter.allocate_block n).0 ≡ ok b → ltb b 10 ≡ false
counter-fresh n h b e = grind arith

abbrev below_ten : Setting Blocks ℕ
below_ten = record {
  dev = memory;
  alloc = counter;
  live = λ b. ltb b 10;
  gives_fresh = record {
    Good = λ n. 10 ≤ n;
    stays_good = λ n h. omega arith;
    fresh = counter-fresh;
  };
}

abbrev empty_world : World Blocks ℕ
empty_world = record { tree = Ops.new 0 inode 1; device = λ b. none; allocator = 9 }

abbrev world_after : {B : Type 0} → Option (TreeResult B × World Blocks ℕ) → World Blocks ℕ
world_after none = empty_world
world_after (some (r, w)) = w

abbrev one_entry : World Blocks ℕ
one_entry = world_after (insert memory counter u64_value 5 7 empty_world)

abbrev two_entries : World Blocks ℕ
two_entries = world_after (insert memory counter u64_value 6 8 one_entry)

search-one_entry :
    result_of (search memory counter u64_value one_entry.tree 5 one_entry)
    ≡ some (ok (found_value 7, (9, 0) ∷ []))
unfolding Ops.new Ops.◌>>=◌ Ops.get_tree Ops.set_tree Ops.on_node Ops.pure Ops.raise Ops.or_panic
    Ops.or_raise Ops.raise_if Ops.next_generation Ops.set_root Ops.is_empty Ops.is_found
    Ops.leaf_block u64_value insert search
search-one_entry = refl

search-two_entries :
    result_of (search memory counter u64_value two_entries.tree 6 two_entries)
    ≡ some (ok (found_value 8, (10, 0) ∷ []))
unfolding Ops.new Ops.◌>>=◌ Ops.get_tree Ops.set_tree Ops.on_node Ops.pure Ops.raise Ops.or_panic
    Ops.or_raise Ops.raise_if Ops.next_generation Ops.set_root Ops.is_empty Ops.is_found
    Ops.leaf_block u64_value insert search
search-two_entries = refl

-- a key that is there already
insert-taken :
    result_of (insert memory counter u64_value 6 8 two_entries) ≡ some (err duplicate_key)
unfolding Ops.new Ops.◌>>=◌ Ops.get_tree Ops.set_tree Ops.on_node Ops.pure Ops.raise Ops.or_panic
    Ops.or_raise Ops.raise_if Ops.next_generation Ops.set_root Ops.is_empty Ops.is_found
    Ops.leaf_block u64_value insert search
insert-taken = refl

abbrev without_five : World Blocks ℕ
without_five = world_after (delete memory counter u64_value 5 two_entries)

search-without_five :
    result_of (search memory counter u64_value without_five.tree 5 without_five)
    ≡ some (ok (not_found, (11, 0) ∷ []))
unfolding Ops.new Ops.◌>>=◌ Ops.get_tree Ops.set_tree Ops.on_node Ops.pure Ops.raise Ops.or_panic
    Ops.or_raise Ops.raise_if Ops.next_generation Ops.set_root Ops.is_empty Ops.is_found
    Ops.leaf_block u64_value insert search delete
search-without_five = refl

six_inserted : Changes below_ten u64_value one_entry two_entries
unfolding Ops.new Ops.◌>>=◌ Ops.get_tree Ops.set_tree Ops.on_node Ops.pure Ops.raise Ops.or_panic
    Ops.or_raise Ops.raise_if Ops.next_generation Ops.set_root Ops.is_empty Ops.is_found
    Ops.leaf_block u64_value insert search
six_inserted = inserted 6 8 (ok 10) start refl

five_deleted : Changes below_ten u64_value one_entry without_five
unfolding Ops.new Ops.◌>>=◌ Ops.get_tree Ops.set_tree Ops.on_node Ops.pure Ops.raise Ops.or_panic
    Ops.or_raise Ops.raise_if Ops.next_generation Ops.set_root Ops.is_empty Ops.is_found
    Ops.leaf_block u64_value insert search delete
five_deleted = deleted 5 (ok 7) six_inserted refl

counter_good : 10 ≤ one_entry.allocator
unfolding Ops.new Ops.◌>>=◌ Ops.get_tree Ops.set_tree Ops.on_node Ops.pure Ops.raise Ops.or_panic
    Ops.or_raise Ops.raise_if Ops.next_generation Ops.set_root Ops.is_empty Ops.is_found
    Ops.leaf_block u64_value insert search
counter_good = omega arith

one_entry-Stays :
    Stays memory below_ten.live one_entry.tree.height one_entry.tree.root_block one_entry.device
unfolding Ops.new Ops.◌>>=◌ Ops.get_tree Ops.set_tree Ops.on_node Ops.pure Ops.raise Ops.or_panic
    Ops.or_raise Ops.raise_if Ops.next_generation Ops.set_root Ops.is_empty Ops.is_found
    Ops.leaf_block u64_value insert search Stays
one_entry-Stays = refl

read-Changes_example : memory.read_node 9 without_five.device ≡ memory.read_node 9 one_entry.device
read-Changes_example =
    read-Changes below_ten u64_value one_entry without_five 9 counter_good refl five_deleted

search-Changes_example :
    result_of (search memory counter u64_value one_entry.tree 5 without_five)
    ≡ result_of (search memory counter u64_value one_entry.tree 5 one_entry)
search-Changes_example =
    search-Changes below_ten u64_value one_entry without_five one_entry.tree 5 counter_good
      one_entry-Stays five_deleted

abbrev two_keys : List (ℕ × ℕ)
two_keys = (5, 7) ∷ (6, 8) ∷ []

abbrev small_leaf : TreeNode
small_leaf = record (new_leaf inode 1) {
  item_count = 2;
  data_area = to_le 8 5 ++ to_le 8 7 ++ to_le 8 6 ++ to_le 8 8 ++ replicate (node_data_size - 32) 0;
}

small_leaf-IsLeaf : IsLeaf u64_value small_leaf two_keys
unfolding u64_value new_leaf Leaf.read_entry
small_leaf-IsLeaf = record {
  counted = refl;
  size = refl;
  room = omega arith;
  slots = at;
  fitting = refl;
  sorted = refl;
}
  where
    at : (i : ℕ) → i < 2 → slot u64_value small_leaf.data_area i ≡ get_elem? two_keys i
    at zero h = refl
    at (suc zero) h = refl
    at (suc (suc i)) h = absurd (omega arith)

search-locate_example : Leaf.search u64_value 6 small_leaf ≡ some (locate 6 two_keys)
search-locate_example = search-locate u64_value 6 small_leaf two_keys small_leaf-IsLeaf

insert-Inserts_example :
    Inserts u64_value 4 9 small_leaf two_keys
      (leb (max_entries u64_value) (length two_keys))
      (lookup 4 two_keys)
unfolding u64_value new_leaf node_type
insert-Inserts_example = insert-Inserts u64_value 4 9 small_leaf two_keys small_leaf-IsLeaf refl

delete-Deletes_example : Deletes u64_value 5 small_leaf two_keys (lookup 5 two_keys)
delete-Deletes_example = delete-Deletes u64_value 5 small_leaf two_keys small_leaf-IsLeaf

is_valid-update_crc_example : is_valid (update_crc small_leaf) ≡ true
unfolding u64_value new_leaf node_type
is_valid-update_crc_example = is_valid-update_crc small_leaf refl
