-- ===== src/Wfs/Tree/Snapshot/Readers.antt =====
-- A search of a tree whose blocks stay as they are gives what it gave before.
use watos.Common.{
  ℕ, zero, suc, ◌≡◌, refl, sym, ap, ◌∙◌, Bool, true, false, Option, none, some, [], if◌then◌else◌,
}
use watos.Wfs.Tree.{TreeError, TreeResult, ok, err, TreeNode, crc_error, invalid_node}
use watos.Wfs.Tree.Values.{TreeValue}
use watos.Wfs.Tree.Leaf.{Place, found, insert_at, get_entry}
use watos.Wfs.Tree.Internal.{find_child}
use watos.Wfs.Tree.Ops.{
  BPlusTree, is_empty, SearchResult, found_value, not_found, TreePath, BlockDevice, World, Action,
  pure, raise, continue_with, ◌>>=◌, or_panic, or_raise, raise_if,
}
use watos.Wfs.Tree.Methods.{key_bytes, read, answer, search_from, search}
use watos.Wfs.Tree.Snapshot.{Setting, Keeps}

-- the result of a call, without what it changed
abbrev pub result_of {ℓ} :
    {D A : Type 0} {B : Type ℓ} → Option (TreeResult B × World D A) → Option (TreeResult B)
result_of none = none
result_of (some (r, w)) = some r

module _ {D A : Type 0} where
  abbrev leaves :
      {B : Type 0} → Option (TreeResult B) → World D A → Option (TreeResult B × World D A)
  leaves none w = none
  leaves (some r) w = some (r, w)

  -- The call gives the same result in both worlds, and changes neither.
  pub record Alike {B : Type 0} (u v : World D A) (m : Action D A B) : Type 0 where
    pub given : Option (TreeResult B)
    pub at_first : m u ≡ leaves given u
    pub at_second : m v ≡ leaves given v

  result_of-leaves :
      {B : Type 0} (r : Option (TreeResult B)) (w : World D A) → result_of (leaves r w) ≡ r
  result_of-leaves none w = refl
  result_of-leaves (some r) w = refl

  pub result_of-Alike :
      {B : Type 0} (u v : World D A) (m : Action D A B)
      → Alike u v m
      → result_of (m v) ≡ result_of (m u)
  result_of-Alike u v m h =
      ap result_of h.at_second
      ∙ result_of-leaves h.given v
      ∙ sym (result_of-leaves h.given u)
      ∙ sym (ap result_of h.at_first)

  bind_lem :
      {B E : Type 0} (u v : World D A) (m : Action D A B) (f : B → Action D A E)
      (r : Option (TreeResult B))
      → m u ≡ leaves r u
      → m v ≡ leaves r v
      → ((b : B) → m u ≡ some (ok b, u) → Alike u v (f b))
      → Alike u v (m >>= f)
  unfolding ◌>>=◌ continue_with
  bind_lem u v m f none h k g = record {
    given = none;
    at_first = ap (continue_with f) h;
    at_second = ap (continue_with f) k;
  }
  bind_lem u v m f (some (ok b)) h k g =
      let rest = g b h in
      record {
        given = rest.given;
        at_first = ap (continue_with f) h ∙ rest.at_first;
        at_second = ap (continue_with f) k ∙ rest.at_second;
      }
  bind_lem u v m f (some (err e)) h k g = record {
    given = some (err e);
    at_first = ap (continue_with f) h;
    at_second = ap (continue_with f) k;
  }

  bind-Alike :
      {B E : Type 0} {u v : World D A} {m : Action D A B} {f : B → Action D A E}
      → Alike u v m
      → ((b : B) → m u ≡ some (ok b, u) → Alike u v (f b))
      → Alike u v (m >>= f)
  bind-Alike {u = u} {v = v} {m = m} {f = f} h g = bind_lem u v m f h.given h.at_first h.at_second g

  pure-Alike : {B : Type 0} (u v : World D A) (b : B) → Alike u v (pure b)
  unfolding pure
  pure-Alike u v b = record { given = some (ok b); at_first = refl; at_second = refl }

  raise_if-Alike : (u v : World D A) (c : Bool) (e : TreeError) → Alike u v (raise_if c e)
  unfolding raise_if
  raise_if-Alike u v c e = record {
    given = some (if c then err e else ok tt);
    at_first = refl;
    at_second = refl;
  }

  if-Alike :
      {B : Type 0} (u v : World D A) {m k : Action D A B} (c : Bool)
      → Alike u v m
      → Alike u v k
      → Alike u v (if c then m else k)
  if-Alike u v true h k = h
  if-Alike u v false h k = k

  or_panic-Alike : {B : Type 0} (u v : World D A) (o : Option B) → Alike u v (or_panic o)
  unfolding or_panic
  or_panic-Alike u v none = record { given = none; at_first = refl; at_second = refl }
  or_panic-Alike u v (some b) = record { given = some (ok b); at_first = refl; at_second = refl }

  or_raise-Alike :
      {B : Type 0} (u v : World D A) (e : TreeError) (o : Option B) → Alike u v (or_raise e o)
  unfolding or_raise pure raise
  or_raise-Alike u v e none = record { given = some (err e); at_first = refl; at_second = refl }
  or_raise-Alike u v e (some b) = record { given = some (ok b); at_first = refl; at_second = refl }

  or_raise-ok :
      {B : Type 0} (w : World D A) (e : TreeError) (o : Option B) (b : B)
      → or_raise e o w ≡ some (ok b, w)
      → o ≡ some b
  unfolding or_raise pure raise
  or_raise-ok w e none b h = cc
  or_raise-ok w e (some c) b h = cc

-- The blocks of a tree that a search can come to, `level` levels above the leaves, are all live.
unfoldable pub Stays : {D : Type 0} → BlockDevice D → (ℕ → Bool) → ℕ → ℕ → D → Type 0
Stays dev live zero block d = live block ≡ true
Stays dev live (suc level) block d =
    (live block ≡ true)
    × ((key index child : ℕ) (n : TreeNode)
        → dev.read_node block d ≡ ok n
        → find_child key n ≡ some (index, child)
        → Stays dev live level child d)

module _ {D A : Type 0} (s : Setting D A) {V : Type 0} (tv : TreeValue V) (u v : World D A) where
  read-Alike : (b : ℕ) → Keeps s u v → s.live b ≡ true → Alike u v (read s.dev s.alloc b)
  unfolding read
  read-Alike b k l = record {
    given = some (s.dev.read_node b u.device);
    at_first = refl;
    at_second = ap (λ r. some (r, v)) (k.same b l);
  }

  read-ok :
      (b : ℕ) (n : TreeNode)
      → read s.dev s.alloc b u ≡ some (ok n, u)
      → s.dev.read_node b u.device ≡ ok n
  unfolding read
  read-ok b n h = cc

  answer-Alike :
      (leaf : TreeNode) (path : TreePath) (place : Place)
      → Alike u v (answer s.dev s.alloc tv leaf path place)
  unfolding answer
  answer-Alike leaf path (insert_at i) = pure-Alike u v _
  answer-Alike leaf path (found i) = bind-Alike (or_panic-Alike u v _) given
    where
      given :
          (entry : Option (ℕ × V))
          → or_panic (get_entry tv i leaf) u ≡ some (ok entry, u)
          → Alike {B = SearchResult V × TreePath} u v (elim entry [
            | none ↦ pure (not_found, path)
            | some (k, value) ↦ pure (found_value value, path)
          ])
      given none t = pure-Alike u v _
      given (some (k, value)) t = pure-Alike u v _

  search_from-Alike :
      (key level block : ℕ) (path : TreePath)
      → Keeps s u v
      → Stays s.dev s.live level block u.device
      → Alike u v (search_from s.dev s.alloc tv key level block path)
  unfolding search_from Stays
  search_from-Alike key zero block path k l = bind-Alike (read-Alike block k l) λ node _.
      bind-Alike (raise_if-Alike u v _ crc_error)
        λ _ _. bind-Alike (or_panic-Alike u v _) λ place _. answer-Alike node _ place
  search_from-Alike key (suc level) block path k (l, below) =
      bind-Alike (read-Alike block k l) λ node is_read.
        bind-Alike (raise_if-Alike u v _ crc_error) λ _ _.
          bind-Alike (or_raise-Alike u v invalid_node _) λ at_child is_found.
            search_from-Alike key level at_child.1 _ k (
              below (key_bytes key) at_child.0 at_child.1 node (read-ok block node is_read)
                (or_raise-ok u invalid_node _ at_child is_found))

  pub search-Alike :
      (tree : BPlusTree) (key : ℕ)
      → Keeps s u v
      → Stays s.dev s.live tree.height tree.root_block u.device
      → Alike u v (search s.dev s.alloc tv tree key)
  unfolding search
  search-Alike tree key k l =
      if-Alike u v (is_empty tree) (pure-Alike u v _)
        (search_from-Alike key tree.height tree.root_block [] k l)
