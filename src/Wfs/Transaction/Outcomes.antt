-- ===== src/Wfs/Transaction/Outcomes.antt =====
-- How commits end.
use mathlib.Core.Path.{subst}
use watos.Common.{ℕ, ◌≡◌, refl, sym, ap, ◌∙◌, true, none, some, List, [], ◌∷◌}
use watos.Wfs.FreeSpace.{PendingFree}
use watos.Wfs.Tree.{TreeNode, TreeError, TreeResult}
use watos.Wfs.Tree
use watos.Wfs.Transaction.{
  TransactionResult, done, failed, io_error, invalid_state, Transaction, new, is_active,
  begin_commit, update_crc,
}
use watos.Wfs.Transaction.Filesystem.{
  FilesystemState, has_active_transaction, root_block, Disk, Step, continue_with, and_then,
  io_result, superblock_node, write_superblock, sync, begin_transaction, free_all, publish,
  completed, finish, write_commit, commit_with, commit_transaction,
}

abbrev pub roots : FilesystemState → ℕ × ℕ
roots s = (s.superblock.root_tree_block, s.superblock.root_generation)

module _ {D : Type 0} (disk : Disk D) where
  -- To give blocks back does not touch the root of the inodes.
  abbrev pub KeepsRoots : Type 0
  KeepsRoots =
      (start count : ℕ) (s : FilesystemState) (d : D)
      → roots (disk.free_blocks start count s d).1.0 ≡ roots s

  -- the roots after a call that is done
  Rooted : ℕ × ℕ → TransactionResult × (FilesystemState × D) → Type 0
  Rooted r (done, (s, d)) = roots s ≡ r
  Rooted r (failed e, (s, d)) = Unit {0}

  free_all-Rooted :
      (ps : List PendingFree) (s : FilesystemState) (d : D)
      → KeepsRoots
      → Rooted (roots s) (free_all disk ps s d)
  unfolding free_all Rooted
  free_all-Rooted [] s d k = refl
  free_all-Rooted (p ∷ ps) s d k =
      by_result (disk.free_blocks p.block p.count s d).0 (disk.free_blocks p.block p.count s d).1.0
        (disk.free_blocks p.block p.count s d).1.1 (k p.block p.count s d)
        (λ s' d'. free_all-Rooted ps s' d' k)
    where
      by_result :
          (r : TransactionResult) (s' : FilesystemState) (d' : D)
          → roots s' ≡ roots s
          → ((u : FilesystemState) (v : D) → Rooted (roots u) (free_all disk ps u v))
          → Rooted (roots s) (continue_with (free_all disk ps) (r, (s', d')))
      by_result done s' d' e ih = rw (← e) (ih s' d')
      by_result (failed x) s' d' e ih = tt

  -- what a commit that is done leaves
  Finished : ℕ → ℕ → TransactionResult × (FilesystemState × D) → Type 0
  Finished root generation (done, (s, d)) =
      (s.transaction ≡ none)
      × (root_block s ≡ root)
      × (s.superblock.root_generation ≡ generation)
      × (s.inode_tree.root_block ≡ root)
      × (s.inode_tree.generation ≡ generation)
  Finished root generation (failed e, (s, d)) = Unit {0}

  finish_lem :
      (root generation : ℕ) (r : TransactionResult × (FilesystemState × D))
      → Rooted (root, generation) r
      → Finished root generation (continue_with (λ s d. (done, (finish s, d))) r)
  unfolding Rooted Finished finish root_block
  finish_lem root generation (done, (s, d)) h =
      (refl, ap (λ p. p.0) h, ap (λ p. p.1) h, ap (λ p. p.0) h, ap (λ p. p.1) h)
  finish_lem root generation (failed e, (s, d)) h = tt

  io-Finished :
      (root generation : ℕ) (k : Step D) (s : FilesystemState) (r : TreeResult (Unit {0})) (d : D)
      → ((e : D) → Finished root generation (k s e))
      → Finished root generation (continue_with k (io_result s (r, d)))
  unfolding Finished
  io-Finished root generation k s (Tree.ok a) d h = h d
  io-Finished root generation k s (Tree.err e) d h = tt

  write_commit-Finished :
      (t : Transaction) (s : FilesystemState) (d : D)
      → KeepsRoots
      → Finished s.superblock.root_tree_block s.superblock.root_generation (write_commit disk t s d)
  unfolding write_commit write_superblock sync completed
  write_commit-Finished t s d k =
      let root = s.superblock.root_tree_block in
      let generation = s.superblock.root_generation in
      let node = superblock_node s.superblock in
      let last : Step D = λ u v. (done, (finish u, v)) in
      let frees : Step D = λ u v. free_all disk t.pending_frees (completed u) v in
      let third = and_then frees last in
      let second = and_then (write_superblock disk 1) third in
      let first = and_then (sync disk) second in
      io-Finished root generation first s (disk.write_node 0 node d).0 (disk.write_node 0 node d).1
        λ d1. io-Finished root generation second s (disk.sync d1).0 (disk.sync d1).1 λ d2.
          io-Finished root generation third s (disk.write_node 1 node d2).0
            (disk.write_node 1 node d2).1
            λ d3.
              finish_lem root generation (frees s d3)
                (free_all-Rooted t.pending_frees (completed s) d3 k)

  commit_runs :
      (s : FilesystemState) (d : D) (t : Transaction)
      → s.transaction ≡ some t
      → is_active t ≡ true
      → commit_transaction disk s d ≡ write_commit disk t (publish t s) d
  unfolding commit_transaction
  commit_runs s d t e a = ap (λ o. commit_with disk o s d) e ∙ (unfold commit_with in rw a refl)

  write_failed :
      (t : Transaction) (s : FilesystemState) (d : D) (x : TreeError)
      → (disk.write_node 0 (superblock_node s.superblock) d).0 ≡ Tree.err x
      → write_commit disk t s d
        ≡ (failed io_error, (s, (disk.write_node 0 (superblock_node s.superblock) d).1))
  unfolding write_commit write_superblock
  write_failed t s d x h = rw h refl

  -- what holds after a commit whose first write fails
  pub Stuck : ℕ → TransactionResult × (FilesystemState × D) → Type 0
  Stuck root (r, (s, d)) =
      (r ≡ failed io_error)
      × ((commit_transaction disk s d).0 ≡ failed invalid_state)
      × ((begin_transaction disk s d).0 ≡ done)
      × (root_block (begin_transaction disk s d).1.0 ≡ root)

  published-Stuck :
      (t : Transaction) (s : FilesystemState) (d : D)
      → is_active t ≡ true
      → Stuck t.working_root (failed io_error, (publish t s, d))
  unfolding Stuck commit_transaction commit_with begin_transaction has_active_transaction root_block
      publish begin_commit is_active new update_crc
  published-Stuck t s d a = rw a (refl, refl, refl, refl)

  -- Where a commit of an active transaction is done, there is no transaction left, and its working root
  -- and its generation are those of the superblock and of the inode tree; that giving blocks back does
  -- not touch the root and the generation of the superblock is assumed.
  pub commit_transaction-done :
      (s s' : FilesystemState) (d d' : D) (t : Transaction)
      → KeepsRoots
      → s.transaction ≡ some t
      → is_active t ≡ true
      → commit_transaction disk s d ≡ (done, (s', d'))
      → (s'.transaction ≡ none)
        × (root_block s' ≡ t.working_root)
        × (s'.superblock.root_generation ≡ t.generation)
        × (s'.inode_tree.root_block ≡ t.working_root)
        × (s'.inode_tree.generation ≡ t.generation)
  unfolding publish update_crc Finished
  commit_transaction-done s s' d d' t k e a h =
      let run : write_commit disk t (publish t s) d ≡ (done, (s', d')) =
        sym (commit_runs s d t e a) ∙ h in
      subst (Finished t.working_root t.generation) run (write_commit-Finished t (publish t s) d k)

  -- Where the first write of a commit fails, the commit fails, and in memory the root is the one that
  -- was not committed; no transaction counts as active, a second commit is refused, and a new
  -- transaction begins, from that root.
  pub commit_transaction-failed :
      (s : FilesystemState) (d : D) (t : Transaction) (x : TreeError)
      → s.transaction ≡ some t
      → is_active t ≡ true
      → (disk.write_node 0 (superblock_node (publish t s).superblock) d).0 ≡ Tree.err x
      → Stuck t.working_root (commit_transaction disk s d)
  unfolding Stuck
  commit_transaction-failed s d t x e a h =
      subst (Stuck t.working_root)
        (sym (commit_runs s d t e a ∙ write_failed t (publish t s) d x h)) (published-Stuck t s _ a)
