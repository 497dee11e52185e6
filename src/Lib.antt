-- ===== src/Lib.antt =====
-- A verification library for parts of the WATOS operating system: the physical page allocator, the
-- pipes, the permission checks and the mount table of the virtual file system, the free ranges, the
-- extents and the B+ trees of the WFS file system, the paths, the parser of the terminal, and the line
-- buffer and the history of the line editor.
--
-- The parts and how they interact. Page tables, the heap and the processes take their memory from the
-- page allocator. The virtual file system gives each open pipe to the processes as a pair of ends and
-- asks the permission checks before it opens, changes or deletes a file; it finds the file system of a
-- path in the mount table, which keeps its paths normalised; the paths it is given are parsed and
-- normalised by the path crate, which keeps a path on a drive below the root of the drive.
-- WFS records what is free on a disk as ranges of blocks, and what a file holds as extents, which it
-- splits, merges and shares. All its metadata stand in trees, whose blocks are copied before they
-- change; a transaction makes a new root the one that counts. The shell reads its lines with the line
-- editor, and what programs write to the terminal goes through its parser.
--
-- The files:
--   Common              native numbers, tests, lists and bits that all parts share; Common/Bits the
--                       laws of single bits, Common/Count counts of the pages or bits that are set
--   Phys                crates/core/mem/src/phys.rs: PhysAllocator with its words of bits (init,
--                       alloc_page, free_page, alloc_contiguous, stats). Phys/Valid has the invariant,
--                       Phys/Page, Free, Contiguous and Init the operations, Phys/Owners the
--                       pages in use over sequences of calls
--   Vfs/Types           crates/storage/vfs/src/error.rs and file.rs: VfsError, VfsResult, FileStat
--   Vfs/Pipe            crates/storage/vfs/src/pipe.rs: PipeBuffer and its two ends (read, write, stat,
--                       drop), Vfs/Pipe/Fifo a pipe as a queue, Vfs/Pipe/Named the named pipes with
--                       their counts of open ends
--   Vfs/Mount           crates/storage/vfs/src/mount.rs: MountTable (mount, unmount, the drives, resolve),
--                       Vfs/Mount/Longest and Sorted what is resolved, Table sequences of calls
--   Vfs/Permissions     crates/storage/vfs/src/permissions.rs: Credentials, check_permission,
--                       can_delete, the groups, and the two forms a mode is shown in
--   Wfs/FreeSpace       crates/storage/wfs/src/core/freespace.rs: FreeRange (allocate, allocate_at,
--                       merge), as sets of blocks in Wfs/FreeSpace/Blocks
--   Wfs/Extent          crates/storage/wfs/src/core/extent.rs: Extent (offset_to_block, split_at,
--                       merge_with, inc_refcount, dec_refcount)
--   Wfs/Tree            crates/storage/wfs/src/core/node.rs and tree.rs: TreeNode. Wfs/Tree/Bytes has
--                       crc32 of crates/storage/wfs/src/lib.rs, Checksum the check sum of a node,
--                       Values the trait TreeValue, Leaf LeafNode, Internal InternalNode, Ops BPlusTree
--                       and the two traits below it, Methods TreeOps (search, insert, delete). Entries
--                       is the list of entries that a leaf stands for, Leaf/Slots, Shift, Search, Refine
--                       and Contract relate the leaf to it, Snapshot is about the blocks that stay
--   Wfs/Transaction     crates/storage/wfs/src/core/transaction.rs and the superblock of structures.rs;
--                       Wfs/Transaction/Filesystem has FilesystemState of fs.rs with begin_transaction,
--                       commit_transaction and abort_transaction, Work its InodeOps and the
--                       allocate_for_write of ExtentOps. Outcomes is about commits, Active about the
--                       transaction while it is worked in, Aborts about what an abort leaves
--   FilePath            crates/core/path/src/lib.rs: parse, normalize, normalize_jailed, join and the
--                       other functions on paths
--   Terminal/Parser     crates/sys/terminal/src/parser.rs: Parser, which makes events of bytes; the methods
--                       ground, escape, ... are on_ground, on_escape, ... here. Bounds, Collecting,
--                       Sequences and Strings prove what it does
--   Readline/Buffer     crates/sys/readline/src/buffer.rs: EditBuffer and its edits
--   Readline/History    crates/sys/readline/src/history.rs: History, its walk and its searches
-- A function has the name it has in the source. A method that changes its object gives the new object,
-- beside what it returns. The tests of each part stand in its module Tests.
--
-- Numbers. A u64 or usize is a native natural number below 2^64. Where the source adds or subtracts
-- without a check and the result matters, add_u64 and sub_u64 wrap as a release build does, and a
-- theorem whose values must not wrap says so. The lengths of lists and the counters of the page
-- allocator are bounded by the memory, and their sums are written without a wrap. Text is a list of
-- UTF-8 bytes in FilePath and a list of characters in Readline.
--
-- Failures. A VfsResult or an Option of the source is one here. A panic, which is an index out of
-- bounds or a failed assertion, is `none` outside the result. A theorem that gives the result of a
-- call also says that it does not panic; the series of calls in Wfs/Tree/Snapshot and in
-- Wfs/Transaction/Aborts are of calls that return. The loop of the binary search in a leaf also gives
-- `none` where it is not over after its rounds, so that a theorem that gives its result says that it
-- ends.
--
-- Trees. The traits BlockDevice and BlockAllocator are records that a theorem takes, so no code of a
-- disk is assumed: of the device, that a block reads as what was written there and that a write
-- changes no other block, of the allocator only what a theorem says. The keys are u64, the one type
-- of key there is; the trait TreeValue is a record with the laws that the trees rely on, which
-- u64_value fills. A node is its header and its 4064 bytes of data. A call gives a result and the
-- changed tree, device and allocator also where it fails; a slice past the end is a panic.
-- The calls that a FilesystemOps takes from its implementor are a record of functions, Disk.
--
-- Loops are recursion on the list they run over or on the number of rounds that are left: all words of
-- the bitmap for alloc_page, all pages below the limit for alloc_contiguous, the positions below the
-- cursor for the loops over words, the entries of an inner node for its binary search and one more for
-- that of a leaf, the height of a tree for a search. Each has the bound of the loop in the source, so
-- that no result depends on a bound chosen here.
--
-- Not modelled. Locks: every call runs whole, and interleavings are sequences of calls.
-- get_current_credentials, which makes system calls in assembly. Letter case and white space over
-- Unicode, trimming and the search in a string are the library's: parameters of what uses them. The
-- form of an inode and the directories of WFS, the symbolic links of the virtual file system, FAT, the
-- grid and the renderer of the terminal, the processes, the users and the network stack are left out;
-- the drivers, the architecture layer and the applications are input and output.
pub mod Common
pub mod FilePath
pub mod Phys
pub mod Readline
pub mod Terminal
pub mod Vfs
pub mod Wfs
