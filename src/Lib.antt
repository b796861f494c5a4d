-- ===== src/Lib.antt =====
-- The framework of include/framework makes a static index (a "shard") dynamic. Inserts and tombstones
-- go to a buffer; a full buffer is flushed into the levels of a structure, whose shards are merged to
-- make room; queries read the buffer and all shards. This library models that path.
--
--   Base       lists, words of 32 and 64 bits, and Boolean tests that the other files share
--   Record     include/framework/interface/Record.h: records, the header word (Record.Flags), their
--              order (Record.Order), and the net content of a list of records (Record.Net), which is
--              the abstract value of a buffer, a level and a structure
--   Bloom      what the code asks of psudb::BloomFilter, a submodule, as an interface
--   Cursor     include/util/Cursor.h
--   Merge      include/util/SortedMerge.h: sorted_array_from_bufferview, where std::sort is a parameter,
--              and sorted_array_merge (Merge.Cursors), over the interface of psudb::PriorityQueue, a
--              submodule (Merge.Queue); its loop takes fuel for the records of the cursors, each round
--              uses up one at least (Merge.Loop)
--   Isam       include/shard/ISAMTree.h: the constructors, the internal levels above the array and the
--              searches through them (Isam.Nodes), and the tree as a shard of the framework
--              (Isam.Laws); the loops that build a level and the levels take fuel for the records and
--              the nodes below, which each round lessens (Isam.Climb)
--   KeySearch  what include/shard/PGM.h and include/shard/TrieSpline.h write out alike: two loops over
--              a window of a sorted array, and the walk of point_lookup; the binary search takes fuel
--              for the width of the window
--   Pgm        include/shard/PGM.h, over pgm::PGMIndex as an interface with a law
--   TrieSpline include/shard/TrieSpline.h, over the library ts as an interface with a law
--   External   include/shard/ExternalISAMTree.h: the data pages, written by a merge of sorted runs or of
--              shards; the second loop takes fuel for the records, each round uses up one at least
--              (External.Rounds); the merge is seen as a range scan without an upper end (External.Pull).
--              External.Reads has the reads by index and the iterator, External.Nodes the internal pages
--              and the searches; the loops of a level and of the levels take fuel for the children below
--   RangeScan  include/framework/structure/RangeScanIterator.h, with the iterator of
--              include/shard/ExternalISAMTree.h; the loops take fuel for the records of the scan;
--              RangeScan.Range has the scan over the view and the levels of an epoch
--   View       include/framework/structure/BufferView.h: a window on the ring of a buffer
--   Wal        include/framework/structure/WriteAheadLogger.h: the log as a list of entries
--   Buffer     include/framework/structure/MutableBuffer.h: the ring with its two heads, its
--              clients as a step relation (Buffer.Clients), and build_buffer_from_log of
--              WriteAheadLogger.h (Buffer.Replay)
--   Tasks      include/util/types.h: reconstruction tasks
--   Shard      include/framework/interface/Shard.h: the interface of a shard and its laws, for
--              shards that are neither null nor empty
--   Level      include/framework/structure/InternalLevel.h
--   Structure  include/framework/structure/ExtensionStructure.h: planning (here) and execution
--              (Structure.Apply), compactions (Structure.Compaction, where the proportion of tombstones is
--              a fraction instead of a double), and the loop of the reconstruction job in DynamicExtension.h
--   Scheduler  include/framework/scheduling/FIFOScheduler.h and Task.h: jobs that are scheduled and handed
--              to the pool, as steps, over psudb::LockedPriorityQueue as an interface
--   Checkpoint include/framework/structure/Checkpoint.h over a disk of named files, and the state that the
--              constructor in ExtensionStructure.h gives the loaded levels; the order in which
--              nlohmann::json visits the entries is a parameter
--   Query      include/query: rangequery.h, rangecount.h and pointlookup.h
--   Extension  include/framework/DynamicExtension.h under a serial scheduler: appends, erasures, and the
--              job of a flush on buffer and structure together; the counts, and the shard that is made
--              of the whole extension (Extension.Reads); the job of a query over buffer and
--              levels (Extension.Answer), with the interface of include/framework/interface/Query.h
--   Epoch      include/framework/DynamicExtension.h: the counted pointers to the epochs, and jobs that
--              start and end while one thread advances them (Epoch.Jobs)
--   Examples   concrete inputs
--
-- The functions have the names of the source. State is passed explicitly. `none` is a failed assertion,
-- a read of what is not there, or a loop that would not end; the comment at a definition says which.
-- size_t is 64 bits wide, and its arithmetic wraps where the source can wrap, but for page numbers,
-- which do not reach 2^32. Loops are structural on the rounds that are left, or take fuel, which
-- suffices as the results say. The compare-and-exchange loops, and the calls on epochs, run without
-- another thread in between. Level indices and record counts of the structure do not reach 2^63, and
-- `pow` is exact.
--
-- Not modelled: failing system calls, threads and their wakeups, random sampling and distances, the
-- shards over other libraries (include/shard/FSTrie.h, LoudsPatricia.h, Alias.h) and over distances
-- (VPTree.h), the upper bound and the reopening of files, the job of a compaction, queries that
-- repeat, and memory layout.
pub mod Base
pub mod Extension
pub mod Isam
pub mod KeySearch
pub mod Pgm
pub mod TrieSpline
pub mod RangeScan
pub mod External
pub mod Record
pub mod Bloom
pub mod Cursor
pub mod Merge
pub mod View
pub mod Wal
pub mod Buffer
pub mod Tasks
pub mod Shard
pub mod Level
pub mod Structure
pub mod Scheduler
pub mod Checkpoint
pub mod Query
pub mod Epoch
pub mod Examples
