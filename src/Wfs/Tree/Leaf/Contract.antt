-- ===== src/Wfs/Tree/Leaf/Contract.antt =====
-- What `insert` and `delete` of a leaf promise, of the list of its entries.
use watos.Common.{ℕ, ◌≡◌, refl, Bool, true, false, Option, none, some, List, arith, leb, length}
use watos.Wfs.Tree.{TreeNode, err, node_full, duplicate_key, key_not_found}
use watos.Wfs.Tree.Values.{TreeValue}
use watos.Wfs.Tree.Entries.{lookup}
use watos.Wfs.Tree.Leaf.{max_entries, insert, delete}
use watos.Wfs.Tree.Leaf.Slots.{fits_entry}
use watos.Wfs.Tree.Leaf.Search.{IsLeaf}
use watos.Wfs.Tree.Leaf.Refine.{InsertOutcome, DeleteOutcome, insert_cases, delete_cases}

module _ {V : Type 0} (tv : TreeValue V) where
  -- by whether the leaf is full, and by what the key has
  abbrev pub Inserts : ℕ → V → TreeNode → List (ℕ × V) → Bool → Option V → Type 0
  Inserts key value n xs true old = insert tv key value n ≡ some (err node_full, n)
  Inserts key value n xs false (some old) = insert tv key value n ≡ some (err duplicate_key, n)
  Inserts key value n xs false none = InsertOutcome tv key value n xs

  abbrev pub Deletes : ℕ → TreeNode → List (ℕ × V) → Option V → Type 0
  Deletes key n xs none = delete tv key n ≡ some (err key_not_found, n)
  Deletes key n xs (some value) = DeleteOutcome tv key value n xs

  -- In a leaf that holds a list of entries, with a key and a value that fit: where the leaf is full,
  -- `insert` is `NodeFull`; else, where the key is there, `DuplicateKey`; both leave the leaf as it
  -- is. Else `insert` succeeds, and the leaf holds the list with the entry in its place.
  pub insert-Inserts :
      (key : ℕ) (value : V) (n : TreeNode) (xs : List (ℕ × V))
      → IsLeaf tv n xs
      → fits_entry tv (key, value) ≡ true
      → Inserts key value n xs (leb (max_entries tv) (length xs)) (lookup key xs)
  insert-Inserts key value n xs v f =
      by_case (leb (max_entries tv) (length xs)) (lookup key xs) refl refl
    where
      by_case :
          (full : Bool) (old : Option V)
          → leb (max_entries tv) (length xs) ≡ full
          → lookup key xs ≡ old
          → Inserts key value n xs full old
      by_case true old e l = (insert_cases tv key value n xs v f).0 (ground arith)
      by_case false (some old) e l = (insert_cases tv key value n xs v f).1 old (ground arith) l
      by_case false none e l = (insert_cases tv key value n xs v f).2 (ground arith) l

  -- In a leaf that holds a list of entries: where the key is not there, `delete` is `KeyNotFound` and
  -- the leaf stays as it is; else it gives the value of the key, and the leaf holds the list without
  -- the entry.
  pub delete-Deletes :
      (key : ℕ) (n : TreeNode) (xs : List (ℕ × V))
      → IsLeaf tv n xs
      → Deletes key n xs (lookup key xs)
  delete-Deletes key n xs v = by_case (lookup key xs) refl
    where
      by_case : (old : Option V) → lookup key xs ≡ old → Deletes key n xs old
      by_case none l = (delete_cases tv key n xs v).0 l
      by_case (some value) l = (delete_cases tv key n xs v).1 value l
