-- ===== src/Wfs/Transaction/Aborts.antt =====
-- What an abort leaves of a transaction, after any series of changes in it.
use watos.Common.{ℕ, ◌≡◌, Option, none, some, List, [], ◌∷◌, ◌++◌, length, ◌>>=◌}
use watos.Wfs.Tree.{TreeResult}
use watos.Wfs.Tree.Values.{TreeValue}
use watos.Wfs.Tree.Ops.{BlockDevice, BlockAllocator, World}
use watos.Wfs.Tree.Methods
use watos.Wfs.Transaction.{TransactionResult, done}
use watos.Wfs.Transaction.Filesystem.{FilesystemState, root_block, Disk}
use watos.Wfs.Transaction.Outcomes.{roots}
use watos.Wfs.Transaction.Work.{
  Store, allocate_inode_num, lookup, insert, delete, allocate_for_write,
}
use watos.Wfs.Transaction.Active.{blocks_in}

module _ {E : Type 0} (disk : Disk E) (given : E → List ℕ) where
  -- A block that is freed is given back, after those that were before.
  abbrev pub GivesBack : Type 0
  GivesBack = (b : ℕ) (e : E) → given (disk.free_block b e).1 ≡ given e ++ b ∷ []

module _ {D A V : Type 0} (dev : BlockDevice D) (alloc : BlockAllocator A) (tv : TreeValue V)
    (inode_num : V → ℕ) where
  -- Calls in a transaction, one after another, of which each may fail, and the blocks of the extents
  -- that were allocated.
  pub data Works : Store D A → List ℕ → Store D A → Type 0 where
    nothing_yet : {u : Store D A} → Works u [] u
    inserted :
        {u v w : Store D A} {bs : List ℕ} (inode : V) (r : TreeResult (Unit {0}))
        → Works u bs v
        → insert dev alloc tv inode_num inode v ≡ some (r, w)
        → Works u bs w
    deleted :
        {u v w : Store D A} {bs : List ℕ} (num : ℕ) (r : TreeResult V)
        → Works u bs v
        → delete dev alloc tv inode_num num v ≡ some (r, w)
        → Works u bs w
    numbered :
        {u v : Store D A} {bs : List ℕ}
        → Works u bs v
        → Works u bs (record v { fs = (allocate_inode_num v.fs).1 })
    extended :
        {u v : Store D A} {bs : List ℕ} (file_offset length : ℕ)
        → Works u bs v
        → Works u
            (bs ++ blocks_in (allocate_for_write dev alloc file_offset length v).0)
            (allocate_for_write dev alloc file_offset length v).1

  -- the state that a call of the trees leaves, of which a lookup keeps nothing
  stored :
      {B : Type 0}
      → FilesystemState
      → Option (TreeResult B × World D A)
      → Option (TreeResult B × Store D A)
  stored s x = x >>= λ (y, w). some (
    y,
    record { fs = record (s) { inode_tree = w.tree }; device = w.device; allocator = w.allocator },
  )

  -- what an abort leaves of a transaction that began in `s`, in the state `w` of it
  pub Aborted :
      {E : Type 0}
      → (E → List ℕ)
      → FilesystemState
      → List ℕ
      → Store D A
      → E
      → TransactionResult × (FilesystemState × E)
      → Type 0
  Aborted given s bs w e (r, (s', e')) =
      (r ≡ done)
      × (s'.transaction ≡ none)
      × (roots s' ≡ roots s)
      × (root_block s' ≡ s.superblock.root_tree_block)
      × ((num : ℕ)
          → lookup dev alloc tv inode_num num (record w { fs = s' })
            ≡ lookup dev alloc tv inode_num num w)
      × (given e' ≡ given e ++ bs)
