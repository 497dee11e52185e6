-- ===== src/Wfs/Tree/Snapshot.antt =====
-- Copy on write: insertion and deletion write only blocks that the allocator gives out, so that all
-- that stands in other blocks, and every tree there, stays as it is, however the call ends.
pub mod Calls
pub mod Readers
pub mod Isolation
use mathlib.Core.List.{reverse}
use watos.Common.{
  ℕ, zero, suc, ◌+◌, ◌-◌, ◌*◌, ◌/◌, ◌%◌, ◌^◌, ◌≤◌, ◌<◌, min, max, bit_and, bit_or, ◌≡◌, refl, sym,
  ap, ◌∙◌, ◌≢◌, ◌↔◌, ◌⊎◌, inl, inr, Bool, true, false, ◌&&◌, ◌||◌, not, Option, none, some, List,
  [], ◌∷◌, ◌++◌, map, append-nil, append_assoc, arith, ltb, leb, ◌==◌, if◌then◌else◌, ltb→lt,
  ==_iff, Bool-cases, Option-cases, length, get_elem?, get_or, set, take, drop, replicate,
  length-append, length-set, length-replicate, length-take, length-drop, take-append-drop,
  get_or-set_self, get_or-set_ne, get_or-replicate, set-out, sub_u64, add_u64, is_nil,
}
use watos.Wfs.Tree.{
  TreeError, TreeResult, ok, err, TreeNode, new_leaf, new_internal, node_full, crc_error,
  invalid_node, duplicate_key, key_not_found, empty_tree, max_internal_entries,
}
use watos.Wfs.Tree.Values.{TreeValue}
use watos.Wfs.Tree.Checksum.{is_valid, update_crc}
use watos.Wfs.Tree.Leaf.{Place, found, insert_at, get_entry, is_full}
use watos.Wfs.Tree.Leaf
use watos.Wfs.Tree.Internal.{get_key, find_child, set_entry}
use watos.Wfs.Tree.Internal
use watos.Wfs.Tree.Ops.{
  BPlusTree, is_empty, SearchResult, found_value, not_found, error, is_found, TreePath, leaf_block,
  BlockDevice, BlockAllocator, World, Action, pure, raise, continue_with, ◌>>=◌, ◌>>◌, on_node,
  or_panic, or_raise, raise_if, get_tree, set_tree, next_generation, set_root,
}
use watos.Wfs.Tree.Methods.{
  key_bytes, read, write, allocate, replace_child, copy_parents, propagate_cow, split_root,
  split_below, propagate_split, answer, search_from, search, collect, insert_all, first_key,
  split_leaf, insert_with_split, insert_first, insert_in_leaf, insert_at_path, insert,
  delete_at_path, delete_result, delete,
}

-- The allocator gives out no block of `live`, now and after every allocation, while `Good` holds of it.
pub record GivesFresh {A : Type 0} (alloc : BlockAllocator A) (live : ℕ → Bool) : Type 1 where
  pub Good : A → Type 0
  pub stays_good : (a : A) → Good a → Good (alloc.allocate_block a).1
  pub fresh : (a : A) → Good a → (b : ℕ) → (alloc.allocate_block a).0 ≡ ok b → live b ≡ false

-- A device, an allocator that gives out no block of `live`, and what is so of the allocator.
pub record Setting (D A : Type 0) : Type 1 where
  pub dev : BlockDevice D
  pub alloc : BlockAllocator A
  pub live : ℕ → Bool
  pub gives_fresh : GivesFresh alloc live

module _ {D A : Type 0} (s : Setting D A) where
  -- The live blocks read as before, and the allocator still gives none of them.
  pub record Keeps (w w' : World D A) : Type 0 where
    pub same : (b : ℕ) → s.live b ≡ true → s.dev.read_node b w'.device ≡ s.dev.read_node b w.device
    pub good : s.gives_fresh.Good w'.allocator

  -- how a call that started at `w` ended; a result that it gives satisfies `Q`
  abbrev pub Ended :
      {B : Type 0} → (B → Type 0) → World D A → Option (TreeResult B × World D A) → Type 0
  Ended Q w none = Unit {0}
  Ended Q w (some (ok b, w')) = Keeps w w' × Q b
  Ended Q w (some (err e, w')) = Keeps w w'

  -- The call keeps the live blocks, however it ends.
  pub record Triple {B : Type 0} (m : Action D A B) (Q : B → Type 0) : Type 0 where
    pub ended : (w : World D A) → s.gives_fresh.Good w.allocator → Ended Q w (m w)

  abbrev pub Any : {B : Type 0} → B → Type 0
  Any b = Unit {0}

  abbrev pub Fresh : ℕ → Type 0
  Fresh b = s.live b ≡ false

  pub Keeps-refl : (w : World D A) → s.gives_fresh.Good w.allocator → Keeps w w
  Keeps-refl w h = record { same = λ b l. refl; good = h }

  pub Keeps-trans : (u v w : World D A) → Keeps u v → Keeps v w → Keeps u w
  Keeps-trans u v w h k = record { same = λ b l. k.same b l ∙ h.same b l; good = k.good }

  later :
      {B : Type 0} (Q : B → Type 0) (u v : World D A) (r : Option (TreeResult B × World D A))
      → Keeps u v
      → Ended Q v r
      → Ended Q u r
  later Q u v none h k = tt
  later Q u v (some (ok b, w)) h (k, q) = (Keeps-trans u v w h k, q)
  later Q u v (some (err e, w)) h k = Keeps-trans u v w h k

  continue_lem :
      {B E : Type 0} (Q : B → Type 0) (R : E → Type 0) (f : B → Action D A E) (w : World D A)
      (r : Option (TreeResult B × World D A))
      → ((b : B) → Q b → Triple (f b) R)
      → Ended Q w r
      → Ended R w (continue_with f r)
  unfolding continue_with
  continue_lem Q R f w none k e = tt
  continue_lem Q R f w (some (ok b, w')) k (e, q) =
      later R w w' (f b w') e ((k b q).ended w' e.good)
  continue_lem Q R f w (some (err x, w')) k e = e

  pub bind-Triple :
      {B E : Type 0} {Q : B → Type 0} {R : E → Type 0} {m : Action D A B} {f : B → Action D A E}
      → Triple m Q
      → ((b : B) → Q b → Triple (f b) R)
      → Triple (m >>= f) R
  unfolding ◌>>=◌
  bind-Triple {Q = Q} {R = R} {m = m} {f = f} h k = record {
    ended = λ w good. continue_lem Q R f w (m w) k (h.ended w good);
  }

  pub if-Triple :
      {B : Type 0} {Q : B → Type 0} {m k : Action D A B} (c : Bool)
      → Triple m Q
      → Triple k Q
      → Triple (if c then m else k) Q
  if-Triple true h k = h
  if-Triple false h k = k

  pub pure-Triple : {B : Type 0} (b : B) → Triple (pure b) Any
  unfolding pure
  pure-Triple b = record { ended = λ w good. (Keeps-refl w good, tt) }

  pub raise-Triple : {B : Type 0} (e : TreeError) → Triple {B = B} (raise e) Any
  unfolding raise
  raise-Triple e = record { ended = λ w good. Keeps-refl w good }

  pub on_node-Triple : {B : Type 0} (r : Option (TreeResult B × TreeNode)) → Triple (on_node r) Any
  unfolding on_node
  on_node-Triple none = record { ended = λ w good. tt }
  on_node-Triple (some (ok b, n)) = record { ended = λ w good. (Keeps-refl w good, tt) }
  on_node-Triple (some (err e, n)) = record { ended = λ w good. Keeps-refl w good }

  pub or_panic-Triple : {B : Type 0} (o : Option B) → Triple (or_panic o) Any
  unfolding or_panic
  or_panic-Triple none = record { ended = λ w good. tt }
  or_panic-Triple (some b) = record { ended = λ w good. (Keeps-refl w good, tt) }

  pub or_raise-Triple : {B : Type 0} (e : TreeError) (o : Option B) → Triple (or_raise e o) Any
  unfolding or_raise pure raise
  or_raise-Triple e none = record { ended = λ w good. Keeps-refl w good }
  or_raise-Triple e (some b) = record { ended = λ w good. (Keeps-refl w good, tt) }

  pub raise_if-Triple : (c : Bool) (e : TreeError) → Triple (raise_if c e) Any
  unfolding raise_if
  raise_if-Triple true e = record { ended = λ w good. Keeps-refl w good }
  raise_if-Triple false e = record { ended = λ w good. (Keeps-refl w good, tt) }

  pub get_tree-Triple : Triple get_tree Any
  unfolding get_tree
  get_tree-Triple = record { ended = λ w good. (Keeps-refl w good, tt) }

  pub set_tree-Triple : (t : BPlusTree) → Triple (set_tree t) Any
  unfolding set_tree
  set_tree-Triple t = record { ended = λ w good. (record { same = λ b l. refl; good = good }, tt) }

  pub next_generation-Triple : Triple next_generation Any
  unfolding next_generation
  next_generation-Triple = record {
    ended = λ w good. (record { same = λ b l. refl; good = good }, tt);
  }

  pub set_root-Triple : (b : ℕ) → Triple (set_root b) Any
  unfolding set_root
  set_root-Triple b = record { ended = λ w good. (record { same = λ b l. refl; good = good }, tt) }

  -- a result with a world that keeps the live blocks
  ended-Any :
      {B : Type 0} (w w' : World D A) (r : TreeResult B) → Keeps w w' → Ended Any w (some (r, w'))
  ended-Any w w' (ok b) h = (h, tt)
  ended-Any w w' (err e) h = h

  pub read-Triple : (b : ℕ) → Triple (read s.dev s.alloc b) Any
  unfolding read
  read-Triple b = record {
    ended = λ w good. ended-Any w w (s.dev.read_node b w.device) (Keeps-refl w good);
  }

  pub write-Triple : (b : ℕ) (n : TreeNode) → Fresh b → Triple (write s.dev s.alloc b n) Any
  unfolding write
  write-Triple b n f = record {
    ended = λ w good.
        let done = s.dev.write_node b n w.device in
        ended-Any w (record w { device = done.1 }) done.0
          record {
            same = λ c l.
                s.dev.read_node-write_node_ne b c n w.device
                  (λ e. let h : false ≡ true = sym f ∙ ap s.live e ∙ l in cc);
            good = good;
          };
  }

  allocate_lem :
      (w : World D A) (r : TreeResult ℕ)
      → s.gives_fresh.Good w.allocator
      → (s.alloc.allocate_block w.allocator).0 ≡ r
      → Ended Fresh w (some (r, record w { allocator = (s.alloc.allocate_block w.allocator).1 }))
  allocate_lem w (ok b) good e = (
    record { same = λ c l. refl; good = s.gives_fresh.stays_good w.allocator good },
    s.gives_fresh.fresh w.allocator good b e,
  )
  allocate_lem w (err x) good e = record {
    same = λ c l. refl;
    good = s.gives_fresh.stays_good w.allocator good;
  }

  pub allocate-Triple : Triple (allocate s.dev s.alloc) Fresh
  unfolding allocate
  allocate-Triple = record {
    ended = λ w good. allocate_lem w (s.alloc.allocate_block w.allocator).0 good refl;
  }
