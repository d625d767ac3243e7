-- ===== src/Lib.antt =====
-- A verification library for LSM-EBF, the LevelDB with elastic Bloom filters (LSM-EBF/ in the
-- repository). A table's region has several small Bloom filters in place of one; a cache keeps
-- the regions in queues by how often they are read, and a region in a higher queue has more of
-- its filters in memory. Below them stand LevelDB's formats: varints, write batches, version
-- edits and the log.
--
-- The files and the code they are about:
--   Coding: LSM-EBF/util/coding.cc and coding.h (EncodeVarint32 is encode_varint32 and so on).
--   Hash: LSM-EBF/util/hash.cc.
--   Bloom: the child filters of LSM-EBF/util/multi_bloom.cc; Bloom/Multi: class MultiFilter;
--     Bloom/Multi/Workers: its threads, one step for each atomic access.
--   MultiQueue: LSM-EBF/util/multi_queue.cc. MultiQueue/HandleTable: its hash table; State: the
--     fields of class MultiQueue and the steps on its lists; Shrink: ShrinkLRU and
--     MayBeShrinkUsage; Ops: RecomputeExp, Ref, Unref, Lookup, Release, Erase; Insert: Insert.
--     Lists, Invariant and Unref: the lists and the handles; Usage: what a shrink takes.
--   FilterBlock: LSM-EBF/table/filter_block.cc, the builder and the reader. FilterBlock/Pieces,
--     Built, Steps and Finished: what the builder makes of a table's keys; Offsets: the array of
--     offsets; Cut: a filter cut out by them.
--   Table: the filters of an open table in LSM-EBF/table/table.cc, loaded and evicted region by
--     region. Table/Loaded, Loads and Reaches: what the reader has in each state; Found and
--     Keeps: what its lookups answer.
--   BlockBuilder and Block: LSM-EBF/table/block_builder.cc and block.cc. BlockBuilder/Encoded and
--     Split: what a run of Add leaves; Block/Entries, Parsed, Opened and RoundTrip: how it reads
--     back; Scan and Seek: the search in it; Corrupt, Settled and Errors: the iterator on arbitrary bytes.
--   Format: the footer of LSM-EBF/table/format.cc; its block handles are in Table.
--   WriteBatch: LSM-EBF/db/write_batch.cc.
--   VersionEdit: LSM-EBF/db/version_edit.cc and version_edit.h.
--     VersionEdit/Fields, Written and RoundTrip: an edit as the sequence of its fields.
--   Comparator: LSM-EBF/util/comparator.cc, with the interface of
--     LSM-EBF/include/leveldb/comparator.h and the order of slices; Comparator/Laws: its promises.
--   DbFormat: LSM-EBF/db/dbformat.cc and dbformat.h; DbFormat/Keys: reading keys back; Order and
--     Transitive: their order.
--   VersionSet: the searches among the files of a level in LSM-EBF/db/version_set.cc.
--   Iterator: the promises of LSM-EBF/include/leveldb/iterator.h, as a cursor over a list. It stands
--     for the internal iterator of DbIter and the children of Merger.
--   Merger: LSM-EBF/table/merger.cc; Merger/Smallest and Merged: what it chooses and meets.
--   DbIter: LSM-EBF/db/db_iter.cc. DbIter/Visible and Unwound: what a snapshot shows;
--     Forward, Seek, StepsBack and Backward: what the iterator meets; Bytewise: the order that it needs.
--   Log: LSM-EBF/db/log_writer.cc; Log/Reader: LSM-EBF/db/log_reader.cc; both over any file and
--     any checksum.
--   Base: lists, tests and bit operations that these share. Tests: the theorems at inputs.
--
-- A byte, a uint32 and a uint64 are natural numbers, and wrap where the source's wrap. A string
-- or a slice is the list of its bytes. A pointer to a handle of the cache is a number, and the
-- memory of the handles a function, so that the lists, the hash table and the regions of a table
-- share the handles as the source's pointers do.
--
-- Parameters: the arithmetic of double (Double), which only the cache's expected cost uses; the
-- tables whose filters the cache loads and removes (Tables), four methods of table/table.cc; the
-- file of a table, as a function of an offset and a size; the
-- log's files (WritableFile and SequentialFile) and its checksum.
--
-- Fuel: a search among a block's restart points has one unit for each of them, and a walk over its
-- entries one for each byte before the restart array, since each entry takes three bytes at least;
-- the loops of Iterate and DecodeFrom run on the length of their input, of which each round
-- takes a byte at least; that of StartBlock on the
-- index that it counts up to; that of FindFile on the number of files; that of AddRecord on twice the length of the record and two, since only
-- every second round may write no byte; that of ReadRecord on the bytes left
-- to read and one; those of ShrinkLRU on the length of a queue, which each round shortens. The source's loop of the forced ShrinkLRU never ends once its queue is empty;
-- there the model's result is none.
--
-- Undefined behaviour: where the source's block iterator would read behind the region of its entries,
-- the model ends in a status of its own, read_behind_region; an assertion that fails is none.
--
-- Each child of a table has its own array of offsets in the model; the source stores one array
-- for neighbours with the same number of bits, whose arrays are the same. The numbers of filters
-- to load or to remove are not negative.
--
-- Not modelled: the database itself but for its iterator, and of that the read samples, compactions and the set of versions but for its searches, the iterators over whole
-- tables, Block's SeekByValue, the table cache, the
-- range forms of AddFilters and AdjustFilters, the loads at a table's opening, the value log,
-- system calls, timing and logging; the constructor and destructor of the cache
-- with its background thread; YCSB-EBF/, a benchmark driver.
pub mod Base
pub mod Coding
pub mod Hash
pub mod Block
pub mod BlockBuilder
pub mod Bloom
pub mod MultiQueue
pub mod WriteBatch
pub mod VersionEdit
pub mod Log
pub mod FilterBlock
pub mod Table
pub mod Comparator
pub mod DbFormat
pub mod VersionSet
pub mod Format
pub mod Iterator
pub mod Merger
pub mod DbIter
mod Tests
