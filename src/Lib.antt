-- ===== src/Lib.antt =====
-- RallyDB: a key-value store derived from LevelDB, whose tables carry Bloom filters in several units
-- that are loaded and evicted one by one, by how often a table is read.
--
-- Parts, and how they interact:
-- - A write is recorded in a `WriteBatch`. Its bytes are appended to the log by `log::Writer`, and
--   `WriteBatchInternal::InsertInto` replays them into the memtable; on recovery `log::Reader` gives
--   the bytes back. Records and keys are made of the encodings of util/coding.
-- - A memtable is turned into a table: `BlockBuilder` writes blocks of entries in the order of the
--   internal keys, `Block::Iter` finds entries in them, and the comparator shortens the keys of the
--   index. `TableBuilder` appends the blocks to a file, each with a type and a checksum, and ends with
--   the footer; `ReadBlock` takes a block from the file. `FilterBlockBuilder` collects the keys for the
--   filter policy, whose filters stand in the file in six units; the policy is the Bloom filter.
-- - A `VersionEdit` is a change of the set of tables, which the manifest stores.
-- - A reader of the database walks a `MergingIterator` over the memtables and the tables, and `DBIter`
--   shows of it what a snapshot sees.
-- - Blocks are kept in a `ShardedLRUCache`, whose shards find handles by a `HandleTable` and evict the
--   oldest ones that no client uses.
-- - When a table is open, a `FilterBlockReader` holds its loaded filter units. The multi queue orders
--   these readers by the number of loaded units and by use, and exchanges units of cold readers for
--   one more unit of a hot one.
--
-- Files and the code that they model (paths from the repository's root):
-- - Util/Status: include/leveldb/status.h
-- - Util/Coding and its children: util/coding.h, util/coding.cc
-- - Util/Comparator and its children: util/comparator.cc, `Slice::compare` of include/leveldb/slice.h
-- - Util/Crc: util/crc32c.h
-- - Util/Hash: util/hash.cc
-- - Util/Logging and its child: util/logging.cc
-- - Util/Bloom and its children: util/bloom.cc
-- - Util/Cache and its children: util/cache.cc
-- - Util/MultiQueue and its children: include/leveldb/multi_queue.h, util/multi_queue.cc
-- - Db/Format and its children: db/dbformat.h, db/dbformat.cc
-- - Db/WriteBatch and its children: db/write_batch.cc, include/leveldb/write_batch.h
-- - Db/Log and its children: db/log_format.h, db/log_writer.cc, db/log_reader.cc
-- - Db/VersionEdit and its children: db/version_edit.h, db/version_edit.cc
-- - Db/FileName and its child: db/filename.h, db/filename.cc
-- - Db/VersionSet and its children: db/version_set.cc (the search among files, the inputs and
--   the state of a compaction)
-- - Db/DbIter and its children: db/db_iter.cc
-- - Table/Iterator and its child: include/leveldb/iterator.h
-- - Table/Merger and its children: table/merger.cc
-- - Table/Format and its children: table/format.h, table/format.cc
-- - Table/Builder and its children: table/table_builder.cc
-- - Table/Block and its children: table/block_builder.cc, table/block.cc
-- - Table/FilterBlock and its children: table/filter_block.h, table/filter_block.cc
-- - Prelude and its children: the names, list lemmas and bit lemmas that the others share
-- - Tests and its children: runs on concrete inputs
-- Functions keep their names, in snake case; a method takes its object's state and returns the new one.
--
-- Representation: a byte is a number below 256 and a string a list of bytes. Integers are native numbers
-- with the wrap-around of the source's width written out. A pointer and its limit are the bytes between
-- them, or an offset. Statuses are values. A comparison's int is its sign. Mutexes make each method one
-- step; a filter reader is modelled after its background load is done.
--
-- Parameters: the file interfaces of include/leveldb/env.h, the filter policy where any will do, the
-- compressors, which give back what they compressed, `crc32c::Extend` with the laws that its header states,
-- the double arithmetic of the expected reads, and the sampling of reads by an iterator.
--
-- Loops and fuel: `EncodeVarint64` and `VarintLength` recurse on accessibility. `Iterate` has the length
-- of the input for fuel, `AddRecord` twice the length of the record and two, `ReadPhysicalRecord` three
-- rounds, the binary searches the length of their range. `DecodeFrom` of an edit has the length of
-- its input and one. Each is enough: a round of `Iterate`
-- and of `DecodeFrom` takes a byte, only one round of `AddRecord` in two writes nothing of the record, only one round of
-- `ReadPhysicalRecord` reads, a round of a search makes its range smaller. The scans of a block have its
-- length and one, which is enough unless two lengths of a broken entry wrap around 2^32. `ReadRecord` takes
-- a number of physical records as an argument. `GetOverlappingInputs` has a round for each file and end, and one:
-- each restart takes one in. The walks of `DBIter` have a bound on the number of entries. `AddBoundaryInputs` has a round for each file of the level, and one: each round
-- passes the smallest key of one. The loops of the LRU cache have a round for each unused handle, and one.
--
-- Not modelled: the skip list of the memtable, the caches of tables, opening a table, the rest of versions, the work of a compaction
-- and recovery, threads, the environment, the info log, the statistics for the machine-learning placement,
-- benchmarks and third-party code. They are further components, I/O or floating point.
pub mod Prelude
pub mod Util
pub mod Table
pub mod Db
pub mod Tests
