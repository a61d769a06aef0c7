-- ===== src/Lib.antt =====
-- VeriStore is a key-value store with a write-ahead log, an LSM tree of tables on disk and Raft
-- replication, in C++ (include/kv and src). This library models its storage parts and its Raft
-- node as functions and step relations, and proves what they promise.
--
-- The parts, and the files here that model them:
-- * Versions and lookups (include/kv/version.h, include/kv/lookup_result.h, `lookup_entries` of
--   src/kv_store.cpp): Lookup.
-- * The table in memory (src/memtable.cpp): MemTable, with `put`, `del`, `get_at`, `take_entries`,
--   `clear` and the others as functions on its two fields. MemTable/Mvcc compares reads with the
--   history of writes, MemTable/Size keeps account of the running size.
-- * The write-ahead log (src/wal.cpp): Wal/Crc is `crc32_update`, Wal/Record the bytes of one
--   record and their reading, Wal/File the object with its buffer, `flush`, `replay_into` and
--   `truncate_to_last_good`. A replay folds the records into a store that is an argument.
-- * Tables on disk (src/sstable.cpp, src/sstable_index.cpp, src/sstable_reader.cpp,
--   src/compactor.cpp): SsTable/Rows writes and parses lines, SsTable/Index builds the sparse
--   index, SsTable/Reader is the lookup with the Bloom filter and the index, SsTable/Compactor the
--   merge. Text models what they use of the standard streams.
-- * The Bloom filter (src/bloom_filter.cpp): BloomFilter, with its 64-bit hash.
-- * The list of tables (src/manifest.cpp): Manifest, over the map of files of Files.
-- * The flush thread (src/flush_worker.cpp): FlushWorker. Its locked parts are functions;
--   FlushWorker/Runs has every interleaving of them as a relation, with the tasks that were
--   accepted, those done with their results, and the completions that were polled.
-- * The store that joins these parts (src/kv_store.cpp): KvStore has its state, `put` (put_value),
--   `del` (delete) and the layers that `get_at` reads, KvStore/Compaction the drain of completed
--   flushes, the compaction and `get_at` itself. KvStore/Snapshot has `save_to_file`,
--   `load_from_file`, `save_snapshot` and `load_snapshot`, KvStore/Opening `open` (open_store) and
--   `checkpoint`; KvStore/Api is the store as the object store sees it, and KvStore/Pending what
--   may happen to a store while a flush is pending.
-- * The object store (src/object_store.cpp, include/kv/object_store_key_codec.h,
--   include/kv/object_store_types.h): ObjectStore, over the record of operations and laws of
--   ObjectStore/KvApi. ObjectStore/Objects has `CreateBucket`, `PutObject`, `GetObject` and
--   `DeleteObject`, ObjectStore/Listing `ListObjects` and `GarbageCollectChunks`,
--   ObjectStore/Metadata and ObjectStore/KeyCodec the texts of entries and keys, ObjectStore/Races a
--   `PutObject` with another thread's collection in its middle; the other files there are about
--   proofs.
-- * The Raft node (src/raft.cpp, include/kv/raft.h, src/raft_transport.cpp): Raft/Types and
--   Raft/Node hold the state and the helpers that run under the lock, Raft/Rpc `OnRequestVote` and
--   `OnAppendEntries`, Raft/Propose `ProposePut` and `ProposeDel`, Raft/Loops a round of each of
--   the three threads, Raft/Transport the transport between the nodes of one process. Raft/Steps
--   is the relation of the locked parts; Raft/Steps/Threads relates the threads' code to it.
-- * The server (src/server_main.cpp): Server, with `handle_command` and the loop that cuts what is
--   read into lines (`receive`).
--
-- A MemTable that is full is handed to the FlushWorker, which writes it with the table writer and
-- lists it in the Manifest; readers and the compactor read these tables. The log is written before
-- the MemTable and replayed at the start. The object store keeps its entries in the store. A Raft
-- node calls a state machine, which the store implements.
--
-- Numbers are natural numbers; where the source computes in 32 or 64 bits the wrap-around is
-- written out. A byte is a number, a string a list of bytes, `std::map` a list sorted by key. What
-- comes from outside is an argument: the answers of the system to opens, writes, syncs and
-- renames, the clock and the random draw of a Raft node, the other nodes and threads while the
-- mutex is free, and the size of a `Version`. Reads of a file that is there do not fail.
--
-- Fuel: `replay_loop` takes the length of the file and one more, and each round reads 27 bytes or
-- more; `digits_of` takes the number and one more; `fresh_path` one more round than there are
-- tables; `load_words` the length of the text; `apply_loop` and the flush thread's `run` take any
-- fuel, and the theorems on them say how much is enough.
--
-- Not modelled: the sockets of the server, the client, the demos and the benchmarks, which only
-- call these parts and print. Starting, stopping and sleeping of the threads is not modelled
-- either.
pub mod Common
pub mod Lookup
pub mod MemTable
pub mod Text
pub mod Files
pub mod BloomFilter
pub mod SsTable
pub mod Wal
pub mod Manifest
pub mod FlushWorker
pub mod KvStore
pub mod ObjectStore
pub mod Raft
pub mod Server
