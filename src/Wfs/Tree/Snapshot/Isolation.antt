-- ===== src/Wfs/Tree/Snapshot/Isolation.antt =====
-- Snapshots: a tree that is kept by its root is found as it was, after any insertions and deletions.
use mathlib.Core.Path.{subst}
use watos.Common.{ℕ, ◌≡◌, true, some}
use watos.Wfs.Tree.{TreeResult, ok, err}
use watos.Wfs.Tree.Values.{TreeValue}
use watos.Wfs.Tree.Ops.{BPlusTree, World, Action}
use watos.Wfs.Tree.Methods.{search, insert, delete}
use watos.Wfs.Tree.Snapshot.Calls.{insert-Triple, delete-Triple}
use watos.Wfs.Tree.Snapshot.{Setting, Keeps, Ended, Triple, Any, Keeps-refl, Keeps-trans}
use watos.Wfs.Tree.Snapshot.Readers.{result_of, result_of-Alike, Stays, search-Alike}

module _ {D A V : Type 0} (s : Setting D A) (tv : TreeValue V) where
  -- Insertions and deletions on the current tree, one after another, of which each may fail.
  pub data Changes : World D A → World D A → Type 0 where
    start : {w : World D A} → Changes w w
    inserted :
        {u v w : World D A} (key : ℕ) (value : V) (r : TreeResult ℕ)
        → Changes u v
        → insert s.dev s.alloc tv key value v ≡ some (r, w)
        → Changes u w
    deleted :
        {u v w : World D A} (key : ℕ) (r : TreeResult V)
        → Changes u v
        → delete s.dev s.alloc tv key v ≡ some (r, w)
        → Changes u w

  Keeps-Ended :
      {B : Type 0} (v w : World D A) (r : TreeResult B)
      → Ended s {B = B} (Any s) v (some (r, w))
      → Keeps s v w
  Keeps-Ended v w (ok b) (h, t) = h
  Keeps-Ended v w (err e) h = h

  after :
      {B : Type 0} (v w : World D A) (m : Action D A B) (r : TreeResult B)
      → Triple s m (Any s)
      → m v ≡ some (r, w)
      → s.gives_fresh.Good v.allocator
      → Keeps s v w
  after {B = B} v w m r h e good =
      Keeps-Ended v w r (subst (λ x. Ended s {B = B} (Any s) v x) e (h.ended v good))

  Keeps-Changes : (u w : World D A) → s.gives_fresh.Good u.allocator → Changes u w → Keeps s u w
  Keeps-Changes u w good start = Keeps-refl s u good
  Keeps-Changes u w good (inserted {v = v} key value r before e) =
      let h = Keeps-Changes u v good before in
      Keeps-trans s u v w h (after v w _ r (insert-Triple s tv key value) e h.good)
  Keeps-Changes u w good (deleted {v = v} key r before e) =
      let h = Keeps-Changes u v good before in
      Keeps-trans s u v w h (after v w _ r (delete-Triple s tv key) e h.good)

  -- Where the allocator gives out no block of a set, every block of the set reads as it did before,
  -- after any series of insertions and deletions, whether they succeed or fail.
  pub read-Changes :
      (u w : World D A) (b : ℕ)
      → s.gives_fresh.Good u.allocator
      → s.live b ≡ true
      → Changes u w
      → s.dev.read_node b w.device ≡ s.dev.read_node b u.device
  read-Changes u w b good l c = (Keeps-Changes u w good c).same b l

  -- Where the allocator gives out no block of a tree, as far as a search comes to it, a search of that
  -- tree by its old root gives what it gave before, after any series of insertions and deletions on
  -- the current tree, whether they succeed or fail.
  pub search-Changes :
      (u w : World D A) (tree : BPlusTree) (key : ℕ)
      → s.gives_fresh.Good u.allocator
      → Stays s.dev s.live tree.height tree.root_block u.device
      → Changes u w
      → result_of (search s.dev s.alloc tv tree key w)
        ≡ result_of (search s.dev s.alloc tv tree key u)
  search-Changes u w tree key good stays c =
      result_of-Alike u w (search s.dev s.alloc tv tree key)
        (search-Alike s tv u w tree key (Keeps-Changes u w good c) stays)
