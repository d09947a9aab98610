-- ===== src/Lib.antt =====
-- BTrDB server: the core of a database for time series.
--
-- Parts of the program and the files that model them. A stream is a tree of blocks (qtree), each block is
-- a string of bytes in the store (internal/bstore). Inserts pass the guards of the facade (quasar.go), go to a
-- buffer and a journal first (pqm.go, internal/cephprovider), and reach the tree in bulk; a commit links the new
-- blocks and writes a superblock. Queries merge what the tree and the buffer answer (pqm.go, merger.go).
-- Requests take handles from pools (internal/rez). Each node of a cluster owns a range of the hashes of
-- streams (internal/configprovider), and writes only to those.
--
--   Base           names of the libraries, Boolean tests, lists, 64-bit words, and lemmas on them.
--   Bstore.Consts  internal/bstore/bstore.go: VSIZE, KFACTOR, DBSIZE and others.
--   Bstore.Huff    internal/bstore/blocktypes.go: the packed numbers.
--   Bstore.Float   decompose and recompose, on the bits of a float64.
--   Bstore.Delta   the histories of deltas and the closures of the core block.
--   Bstore.Vector  Vectorblock: CopyInto, Serialize, Deserialize, DatablockGetBufferType.
--   Bstore.Core    Coreblock: CopyInto, Serialize, Deserialize.
--   Bstore.Superblock  Superblock: NewSuperblock, CloneInc, Serialize, DeserializeSuperblock.
--   Bstore.Cache   internal/bstore/blockcache.go: cachePut, cacheGet, cacheCheckCap and ReadDatablock.
--   Bstore.Versions  internal/bstore/blockstore.go and sbcache.go: LoadSuperblock, ObtainGeneration, Commit and
--                  the superblock cache.
--   Bstore.Link    internal/bstore/linker.go: LinkAndStore, with the addresses of allocateBlock.
--   Qtree.Node     qtree/qtree_utils.go: records, nodes and the entries of a core node.
--   Qtree.Window   the time arithmetic: ClampTime, ChildPW, ClampBucket and others.
--   Qtree.Leaf     qtree/qtree.go: the loops over the records of a leaf.
--   Qtree.Read     ReadStandardValuesCI.
--   Qtree.Stats    qtree/operators.go: OpCountMean, OpMin, OpMax.
--   Qtree.Insert   InsertValues with wchild, SetChild, MergeIntoVector and ConvertToCore.
--   Qtree.Delete   DeleteRange.
--   Qtree.Nearest  FindNearestValue.
--   Qtree.Changed  FindChangedSince.
--   Qtree.Shape    the invariant of a tree; Qtree.Tally counts records, Qtree.Contract joins the operations.
--   Merger         merger.go: mergeChangedRanges, mergeStatisticalWindowChannels, CreateStatWindows.
--   Pqm            pqm.go: Insert, flushLockHeld, QueryVersion, MuxContents, the recovery of a stream from the
--                  journal of a node (Recovery), MergeNearestValue and MergeQueryValuesStream.
--   Rez            internal/rez/mercy.go: AdjustTuning, Obtain, Release and the cleaning of the queue.
--   Quasar         quasar.go: the guards of writes and queries (Guards), and QueryChangedRanges with
--                  GetChangedRanges of pqm.go (Changes).
--   Cluster        internal/configprovider: MashRange and the write lock; Members, IdealMash and Gap (Mash),
--                  IntersectWithFreeSpace and CompatibleIntermediateMash (Space); stateChanged and doLeaderStuff as
--                  steps of all nodes (Protocol).
--   Journal        internal/cephprovider/jprovider.go: ReleaseDisjointCheckpoint (Freed), the release of
--                  objects (Objects), the write path with its workers as steps (Written).
--   Tests          runs on concrete inputs.
--
-- Choices. Numbers are natural; a 64-bit word wraps around explicitly, and an int64 is its two's
-- complement. In the tree a time is its distance from MinimumTime, so that the window of the root is
-- [0, 64 * 2 ^ 56). A panic is `none`. Float64 arithmetic is a parameter (Qtree.Stats.Floats) where the tree
-- needs it, and the codec works on its bits. sort.Sort is a parameter with what the code relies on
-- (Qtree.Tally.Sorter). The tree is a value: a child is part of its parent, so loading, caching and the
-- copies on the path of a write are the construction of the new nodes. An insert has fuel: 2 * pw + 2
-- rounds for a node of point width pw, as each level takes at most one conversion of a leaf and one step
-- into a child, and child_pw decreases; 114 for the root. mergeChangedRanges has fuel, two rounds for
-- each range, and so has QueryChangedRanges. The loops that collapse released ranges and fold pending
-- checkpoints have as many rounds as there are ranges, since each round takes one away. cacheCheckCap has two
-- rounds more than there were blocks, one to take each away and one to see that none is left over. In the facade an
-- int64 is its distance from the least int64. The hash of a name or a UUID is a parameter or a number. The
-- steps of the journal's write path stand for its goroutines, and completions come in any order.
--
-- Not modelled: network, disk, etcd and librados, metadata, locks, metrics and logs, the segments of
-- cephprovider.go, the watches and leases of the cluster configuration, members that an operator takes
-- in or out, statistical and window queries of the tree, the gRPC interface, and the command line.
pub mod Base
pub mod Bstore
pub mod Cluster
pub mod Journal
pub mod Qtree
pub mod Merger
pub mod Rez
pub mod Pqm
pub mod Quasar
pub mod Tests
