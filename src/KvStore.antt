-- ===== src/KvStore.antt =====
-- include/kv/kv_store.h and src/kv_store.cpp: the store that joins the log, the MemTable, the tables,
-- the manifest and the flush thread. The mutex makes each method atomic, but the flush thread works
-- beside it: here it only stands as its queues. Opening, checkpoints and
-- snapshots are in Opening and Snapshot.
pub mod Compaction
pub mod Pending
pub mod Reads
pub mod Api
pub mod Snapshot
pub mod Changes
pub mod Opening
pub mod TableIds
pub mod Recovery
pub mod Agreement
pub mod Durability
pub mod Checkpoint
mod Tests
use veri_store.Common.{
  ℕ, ◌+◌, ◌%◌, ◌*◌, ◌^◌, Bool, true, false, not, ◌||◌, Option, none, some, List, [], ◌∷◌, ◌++◌,
  Bytes, codes, length, take, bytes_eq, ltb, ◌==◌, if◌then◌else◌, Dict, find, insert, erase,
}
use mathlib.Core.List.{reverse}
use veri_store.Lookup.{
  Entries, LookupResult, LookupState, not_found_state, value_state, tombstone_state, not_found,
  lookup_entries,
}
use veri_store.MemTable.{MemTable, put, del, get_at, take_entries}
use veri_store.Wal.File.{Wal, Disk, append_put, append_del, flush}
use veri_store.Text.{print_uint}
use veri_store.Manifest.{Manifest}
use veri_store.FlushWorker.{FlushTask, FlushWorker, enqueue, poll_completion}
use veri_store.SsTable.Reader.{table_get_at}
use veri_store.Files.{Files}

abbrev pub u64_mod : ℕ
u64_mod = 2 ^ 64

pub record KvStore : Type 0 where
  pub map : Dict Bytes
  pub memtable : MemTable
  pub immutable_memtable : Option Entries
  pub sstable_paths : List Bytes
  pub flush_worker : FlushWorker
  pub next_sstable_id : ℕ
  pub manifest : Manifest
  pub manifest_path : Bytes
  pub wal : Wal
  pub seq : ℕ
  pub group_commit_every : ℕ
  pub opened : Bool

-- `kMemTableFlushThresholdBytes`
abbrev pub flush_threshold : ℕ
flush_threshold = 4 * 1024 * 1024

-- A number below 1 counts as 1.
unfoldable pub set_group_commit_every : ℕ → KvStore → KvStore
set_group_commit_every n s = record s { group_commit_every = if n == 0 then 1 else n }

abbrev pub is_empty_entries : Entries → Bool
is_empty_entries [] = true
is_empty_entries (e ∷ es) = false

abbrev pub is_some {ℓ} : {A : Type ℓ} → Option A → Bool
is_some none = false
is_some (some a) = true

-- `"/tmp/veristore-" + std::to_string(id) + ".sst"`
unfoldable pub flush_path : ℕ → Bytes
flush_path id = codes "/tmp/veristore-" ++ (print_uint id ++ codes ".sst")

-- The part behind `take_entries`. `std::move` leaves the store an empty map, queued or not.
unfoldable pub queue_entries : Entries → KvStore → KvStore × Bool
unfolding enqueue flush_path
queue_entries entries s =
    let task : FlushTask = record {
      sstable_path = flush_path s.next_sstable_id;
      manifest_path = s.manifest_path;
      entries = entries;
    } in
    let queued = enqueue task s.flush_worker in
    if is_empty_entries entries then (record s { immutable_memtable = none }, true) else (
      record s {
        immutable_memtable = some [];
        next_sstable_id = (s.next_sstable_id + 1) % u64_mod;
        flush_worker = queued.0;
      },
      queued.1,
    )

unfoldable pub maybe_flush_memtable : KvStore → KvStore × Bool
unfolding queue_entries take_entries
maybe_flush_memtable s =
    if ltb s.memtable.approximate_size_bytes flush_threshold
    then (s, true)
    else if is_some s.immutable_memtable
    then (s, false)
    else queue_entries (take_entries s.memtable).0
        (record s { memtable = (take_entries s.memtable).1 })

-- The periodic flush of the log: the store and the result.
unfoldable pub group_commit : Disk → KvStore → KvStore × Bool
unfolding flush
group_commit disk s =
    let flushed = flush disk s.wal in
    if s.seq % s.group_commit_every == 0
    then (record s { wal = flushed.0 }, flushed.1)
    else (s, true)

-- What follows the two writes into the tables.
unfoldable pub finish_write : Disk → KvStore × Bool → KvStore × Bool
unfolding group_commit
finish_write disk (s, ok) = if not ok then (s, false) else group_commit disk s

-- `version_bytes` is `sizeof(Version)`, `disk` what the disk does to a flush of the log.
module _ (version_bytes : ℕ) where
  unfoldable pub put_value : Disk → Bytes → Bytes → KvStore → KvStore
  unfolding append_put maybe_flush_memtable finish_write put
  put_value disk key value s =
      let stamp = (s.seq + 1) % u64_mod in
      let logged = append_put stamp key value s.wal in
      if not s.opened
      then s
      else if not logged.1
      then record s { seq = stamp; wal = logged.0 }
      else (finish_write disk (
          maybe_flush_memtable (record s {
            seq = stamp;
            wal = logged.0;
            map = insert key value s.map;
            memtable = put version_bytes key stamp value s.memtable;
          }))).0

  unfoldable pub delete : Disk → Bytes → KvStore → KvStore × Bool
  unfolding append_del maybe_flush_memtable finish_write del
  delete disk key s =
      let stamp = (s.seq + 1) % u64_mod in
      let logged = append_del stamp key s.wal in
      if not s.opened || not (is_some (find key s.map))
      then (s, false)
      else if not logged.1
      then (record s { seq = stamp; wal = logged.0 }, false)
      else finish_write disk (
          maybe_flush_memtable (record s {
            seq = stamp;
            wal = logged.0;
            map = erase key s.map;
            memtable = del version_bytes key stamp s.memtable;
          }))

unfoldable pub get : Bytes → KvStore → Option Bytes
get key s = find key s.map

unfoldable pub size : KvStore → ℕ
size s = length s.map

unfoldable pub flush_wal : Disk → KvStore → KvStore × Bool
unfolding flush
flush_wal disk s = let flushed = flush disk s.wal in (record s { wal = flushed.0 }, flushed.1)

-- `k.rfind(prefix, 0) == 0`
unfoldable pub starts_with : Bytes → Bytes → Bool
starts_with prefix k = bytes_eq (take (length prefix) k) prefix

-- The loop over the entries; the order in which the source's hash map is walked is not told.
unfoldable pub keys_with_prefix : Bytes → Dict Bytes → List Bytes
unfolding starts_with
keys_with_prefix prefix [] = []
keys_with_prefix prefix ((k, v) ∷ m) =
    let rest = keys_with_prefix prefix m in if starts_with prefix k then k ∷ rest else rest

unfoldable pub list_keys_with_prefix : Bytes → KvStore → List Bytes
unfolding keys_with_prefix
list_keys_with_prefix prefix s = keys_with_prefix prefix s.map

-- The state machine's calls, which write no log.
unfoldable pub apply_put : Bytes → Bytes → KvStore → KvStore
apply_put key value s = record s { map = insert key value s.map }

unfoldable pub apply_del : Bytes → KvStore → KvStore
apply_del key s = record s { map = erase key s.map }

-- `if (result.state == …) return …`, or what comes next.
abbrev pub settle : LookupState → Option Bytes → Option Bytes → Option Bytes
settle value_state value rest = value
settle tombstone_state value rest = none
settle not_found_state value rest = rest

abbrev pub lookup_immutable : Option Entries → Bytes → ℕ → LookupResult
lookup_immutable none key t = not_found
lookup_immutable (some entries) key t = lookup_entries entries key t

-- The loop over the tables: `paths` is the rest of the reversed vector.
unfoldable pub lookup_tables : List Bytes → Files → Bytes → ℕ → Option Bytes
lookup_tables [] files key t = none
lookup_tables (p ∷ paths) files key t =
    let result = table_get_at (find p files) key t in
    settle result.state result.value (lookup_tables paths files key t)

-- `get_at` behind the drain of the completed flushes.
unfoldable pub read_layers : KvStore → Files → Bytes → ℕ → Option Bytes
unfolding lookup_tables get_at
read_layers s files key t =
    let result = get_at key t s.memtable in
    let older = lookup_immutable s.immutable_memtable key t in
    settle result.state result.value
      (settle older.state older.value (lookup_tables (reverse s.sstable_paths) files key t))
