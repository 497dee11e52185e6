-- ===== src/Wfs/Transaction/Active.antt =====
-- An active transaction stays active in each call of the module Work, and records the blocks of extents.
use mathlib.Core.Path.{subst}
use watos.Common.{
  ℕ, zero, suc, ◌+◌, ◌-◌, ◌≡◌, refl, sym, ap, ◌∙◌, inl, inr, true, false, Option, none, some, List,
  [], ◌∷◌, ◌++◌, append-nil, append_assoc, Bool-cases, length, add_u64, ◌>>=◌,
}
use watos.Wfs.Tree.{TreeResult}
use watos.Wfs.Tree
use watos.Wfs.Tree.Values.{TreeValue}
use watos.Wfs.Tree.Ops.{BlockDevice, BlockAllocator, World, Action}
use watos.Wfs.FreeSpace.{block_size}
use watos.Wfs.Tree.Methods
use watos.Wfs.Extent.{Extent, block_count, round_up}
use watos.Wfs.Extent
use watos.Wfs.Transaction.{
  TransactionResult, done, Transaction, new, is_active, record_allocation,
  record_inode_modification,
}
use watos.Wfs.Transaction
use watos.Wfs.Transaction.Filesystem.{
  FilesystemState, has_active_transaction, Disk, begin_transaction,
}
use watos.Wfs.Transaction.Outcomes.{roots}
use watos.Wfs.Transaction.Work.{
  Store, note_inode, allocate_inode_num, record_run, note_run, on_inodes, noted, insert, delete,
  allocate_more, extent_from, allocate_for_write,
}

-- the `n` blocks from `start_block + i` on
abbrev pub block_run : ℕ → ℕ → ℕ → List ℕ
block_run zero start_block i = []
block_run (suc n) start_block i = add_u64 start_block i ∷ block_run n start_block (i + 1)

-- the blocks of an extent that was allocated
abbrev pub blocks_in : TreeResult Extent → List ℕ
blocks_in (Tree.ok e) = block_run (block_count e) e.disk_block 0
blocks_in (Tree.err x) = []

-- A transaction is active, and has recorded these blocks; the superblock has these roots.
pub record Within (r : ℕ × ℕ) (bs : List ℕ) (s : FilesystemState) : Type 0 where
  pub txn : Transaction
  pub here : s.transaction ≡ some txn
  pub running : is_active txn ≡ true
  pub recorded : txn.allocated_blocks ≡ bs
  pub rooted : roots s ≡ r

record_inode_modification-keeps :
    (n : ℕ) (t : Transaction)
    → (is_active (record_inode_modification n t) ≡ is_active t)
      × ((record_inode_modification n t).allocated_blocks ≡ t.allocated_blocks)
unfolding record_inode_modification is_active
record_inode_modification-keeps n t = elim (Bool-cases (Transaction.contains n t.modified_inodes)) [
  | inl there ↦ rw there (refl, refl)
  | inr new_one ↦ rw new_one (refl, refl)
]

record_run-keeps :
    (n start_block i : ℕ) (t : Transaction)
    → (is_active (record_run n start_block i t) ≡ is_active t)
      × ((record_run n start_block i t).allocated_blocks
          ≡ t.allocated_blocks ++ block_run n start_block i)
unfolding record_run record_allocation is_active
record_run-keeps zero start_block i t = (refl, sym (append-nil t.allocated_blocks))
record_run-keeps (suc n) start_block i t =
    let block = add_u64 start_block i in
    let (e, f) = record_run-keeps n start_block (i + 1) (record_allocation block t) in
    (e, f ∙ append_assoc t.allocated_blocks (block ∷ []) (block_run n start_block (i + 1)))

module _ {r : ℕ × ℕ} {bs : List ℕ} (s : FilesystemState) (v : Within r bs s) where
  note_inode-Within : (n : ℕ) → Within r bs (note_inode n s)
  unfolding note_inode is_active
  note_inode-Within n =
      let (e, f) = record_inode_modification-keeps n v.txn in
      record {
        txn = record (record_inode_modification n v.txn) { working_root = s.inode_tree.root_block };
        here = rw (v.here) refl;
        running = e ∙ v.running;
        recorded = f ∙ v.recorded;
        rooted = v.rooted;
      }

  pub allocate_inode_num-Within : Within r bs (allocate_inode_num s).1
  unfolding allocate_inode_num
  allocate_inode_num-Within = record {
    txn = v.txn;
    here = v.here;
    running = v.running;
    recorded = v.recorded;
    rooted = v.rooted;
  }

  note_run-Within :
      (n start_block : ℕ) → Within r (bs ++ block_run n start_block 0) (note_run n start_block s)
  unfolding note_run
  note_run-Within n start_block =
      let (e, f) = record_run-keeps n start_block 0 v.txn in
      record {
        txn = record_run n start_block 0 v.txn;
        here = rw (v.here) refl;
        running = e ∙ v.running;
        recorded = f ∙ ap (λ xs. xs ++ block_run n start_block 0) v.recorded;
        rooted = v.rooted;
      }

-- a transaction that begins
pub begin_transaction-Within :
    {E : Type 0} (disk : Disk E) (s : FilesystemState) (e : E)
    → has_active_transaction s ≡ false
    → Within (roots s) [] (begin_transaction disk s e).1.0
unfolding begin_transaction new is_active
begin_transaction-Within disk s e h = rw h (record {
  txn = new s.next_txn_id (add_u64 s.superblock.root_generation 1) s.superblock.root_tree_block;
  here = refl;
  running = refl;
  recorded = refl;
  rooted = refl;
})

module _ {D A : Type 0} where
  -- what a call that may panic leaves
  unfoldable pub Ended : {B : Type 0} → ℕ × ℕ → List ℕ → Option (TreeResult B × Store D A) → Type 0
  Ended r bs none = Unit {0}
  Ended r bs (some (x, s)) = Within r bs s.fs

  -- one call after another
  then-Ended :
      {B F : Type 0} (r : ℕ × ℕ) (bs : List ℕ) (x : Option (TreeResult B × Store D A))
      (f : TreeResult B × Store D A → Option (TreeResult F × Store D A))
      → Ended r bs x
      → ((y : TreeResult B) (s : Store D A) → Within r bs s.fs → Ended r bs (f (y, s)))
      → Ended r bs (x >>= f)
  unfolding Ended
  then-Ended r bs none f h k = tt
  then-Ended r bs (some (y, s)) f h k = k y s h

  on_inodes-Ended :
      {B : Type 0} (r : ℕ × ℕ) (bs : List ℕ) (m : Action D A B) (s : Store D A)
      → Within r bs s.fs
      → Ended r bs (on_inodes m s)
  unfolding on_inodes Ended
  on_inodes-Ended {B = B} r bs m s v =
      by_result (m (record { tree = s.fs.inode_tree; device = s.device; allocator = s.allocator }))
    where
      by_result :
          (x : Option (TreeResult B × World D A))
          → Ended {B = B} r bs (
              x >>= λ (y, w). some (
                y,
                record {
                  fs = record (s.fs) { inode_tree = w.tree };
                  device = w.device;
                  allocator = w.allocator;
                },
              ))
      by_result none = tt
      by_result (some (y, w)) = record {
        txn = v.txn;
        here = v.here;
        running = v.running;
        recorded = v.recorded;
        rooted = v.rooted;
      }

  noted-Ended :
      {B F : Type 0} (r : ℕ × ℕ) (bs : List ℕ) (f : B → F) (n : ℕ) (y : TreeResult B)
      (s : Store D A)
      → Within r bs s.fs
      → Ended r bs (some (noted f n (y, s)))
  unfolding noted Ended
  noted-Ended r bs f n (Tree.ok b) s v = note_inode-Within s.fs v n
  noted-Ended r bs f n (Tree.err e) s v = v

  module _ (dev : BlockDevice D) (alloc : BlockAllocator A) where
    module _ {V : Type 0} (tv : TreeValue V) (inode_num : V → ℕ) where
      pub insert-Ended :
          (r : ℕ × ℕ) (bs : List ℕ) (inode : V) (s : Store D A)
          → Within r bs s.fs
          → Ended r bs (insert dev alloc tv inode_num inode s)
      unfolding insert
      insert-Ended r bs inode s v =
          let num = inode_num inode in
          let removal = Methods.delete dev alloc tv num in
          let addition = Methods.insert dev alloc tv num inode in
          let note : TreeResult ℕ × Store D A → Option (TreeResult (Unit {0}) × Store D A) =
            λ y. some (noted (λ root. tt) num y) in
          then-Ended {B = V} r bs (on_inodes removal s) (λ y. on_inodes addition y.1 >>= note)
            (on_inodes-Ended r bs removal s v)
            λ ignored s1 v1.
              then-Ended r bs (on_inodes addition s1) note (on_inodes-Ended r bs addition s1 v1)
                λ y s2 v2. noted-Ended r bs (λ root. tt) num y s2 v2

      pub delete-Ended :
          (r : ℕ × ℕ) (bs : List ℕ) (num : ℕ) (s : Store D A)
          → Within r bs s.fs
          → Ended r bs (delete dev alloc tv inode_num num s)
      unfolding delete
      delete-Ended r bs num s v =
          let removal = Methods.delete dev alloc tv num in
          then-Ended r bs (on_inodes removal s) (λ y. some (noted (λ b. b) num y))
            (on_inodes-Ended r bs removal s v) λ y s1 v1. noted-Ended r bs (λ b. b) num y s1 v1

    -- a call that fails records no block
    unrecorded :
        (r : ℕ × ℕ) (bs : List ℕ) (s : FilesystemState) → Within r bs s → Within r (bs ++ []) s
    unrecorded r bs s v = subst (λ xs. Within r xs s) (sym (append-nil bs)) v

    extent_from-Within :
        (r : ℕ × ℕ) (bs : List ℕ) (file_offset length start_block : ℕ)
        (q : TreeResult (Unit {0}) × A) (s : Store D A)
        → Within r bs s.fs
        → let (y, s') =
            extent_from dev alloc file_offset length (round_up length block_size) start_block q s in
          Within r (bs ++ blocks_in y) s'.fs
    unfolding extent_from Extent.new block_count
    extent_from-Within r bs file_offset length start_block (Tree.ok t, a) s v =
        note_run-Within s.fs v (round_up length block_size) start_block
    extent_from-Within r bs file_offset length start_block (Tree.err e, a) s v =
        unrecorded r bs s.fs v

    pub allocate_for_write-Within :
        (r : ℕ × ℕ) (bs : List ℕ) (file_offset length : ℕ) (s : Store D A)
        → Within r bs s.fs
        → let (y, s') = allocate_for_write dev alloc file_offset length s in
          Within r (bs ++ blocks_in y) s'.fs
    unfolding allocate_for_write
    allocate_for_write-Within r bs file_offset length s v =
        by_first (alloc.allocate_block s.allocator).0
      where
        after_one : A
        after_one = (alloc.allocate_block s.allocator).1

        outcome : TreeResult ℕ → TreeResult Extent × Store D A
        outcome x = elim x [
          | Tree.ok start_block ↦
              extent_from dev alloc file_offset length (round_up length block_size) start_block
                (allocate_more dev alloc (round_up length block_size - 1) after_one) s
          | Tree.err e ↦ (Tree.err e, record s { allocator = after_one })
        ]

        by_first : (x : TreeResult ℕ) → Within r (bs ++ blocks_in (outcome x).0) (outcome x).1.fs
        by_first (Tree.ok start_block) =
            extent_from-Within r bs file_offset length start_block
              (allocate_more dev alloc (round_up length block_size - 1) after_one) s v
        by_first (Tree.err e) = unrecorded r bs s.fs v
