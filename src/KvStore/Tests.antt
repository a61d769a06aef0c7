-- ===== src/KvStore/Tests.antt =====
-- A small store, its opening and its snapshots, and the theorems about them applied there.
use mathlib.Core.List.{reverse}
use veri_store.Common.{
  ℕ, suc, ◌<◌, ◌≤◌, ◌≡◌, ◌⊎◌, inl, refl, ap, ◌&&◌, true, false, none, some, List, [], ◌∷◌, ◌++◌,
  Bytes, codes, length, take, leb, bytes_eq, bytes_lt, if◌then◌else◌, find, arith, All, In,
}
use veri_store.Text.{is_space, lines, print_uint}
use veri_store.Text.Words.{IsWord}
use veri_store.Lookup.{Entries, found_value}
use veri_store.Files.{Files, all_written}
use veri_store.Manifest.{load_sstables, nonempty}
use veri_store.MemTable.{put, del, get_at, empty_table}
use veri_store.MemTable.Mvcc.{Ascending, Answers}
use veri_store.Wal.Record.{WalRecord, put_type, del_type, encode_record, header_bytes}
use veri_store.Wal.Record.RoundTrip.{Fits}
use veri_store.Wal.File.{healthy, open_wal, close_wal, append_put, write_record}
use veri_store.FlushWorker.{enqueue}
use veri_store.Wal.File.Recovery.{encoded, greatest_seq}
use veri_store.ObjectStore.KvApi.{Laws}
use veri_store.KvStore.{
  flush_wal, KvStore, queue_entries, group_commit, finish_write, put_value, delete, get, is_some,
  maybe_flush_memtable, lookup_tables, read_layers, flush_path,
}
use veri_store.KvStore.Api.{IsOpen, kv_api, kv_api-Laws}
use veri_store.KvStore.Compaction
use veri_store.KvStore.Reads.{Ready, read_layers-put, read_layers-delete}
use veri_store.KvStore.Pending.{queues, puts, pending_flush_hides}
use veri_store.KvStore.Snapshot.{Saving, save_to_file, load_from_file, save_snapshot, load_snapshot}
use veri_store.KvStore.Snapshot.RoundTrip.{SavedEntries, load_from_file-save_to_file}
use veri_store.KvStore.Snapshot.Words.{load_snapshot-cuts_value}
use veri_store.KvStore.Opening.{
  Opening, list_tables, open_store, replay_record, snapshot_path, Checkpointing, checkpoint,
}
use veri_store.KvStore.TableIds.{open_reuses_path}
use veri_store.KvStore.Recovery.{history, Answering, open_store-recovers}
use veri_store.Wal.File.Durability.{Holds}
use veri_store.KvStore.Durability.{put_record, put_value-survives}
use veri_store.KvStore.Checkpoint.{open_store-checkpoint, open_store-resets_seq}

abbrev one_entry : Entries
one_entry = (codes "a", record { timestamp = 1; value = some (codes "x") } ∷ []) ∷ []

abbrev store_of : ℕ → KvStore
store_of bytes = record {
  map = (codes "a", codes "x") ∷ [];
  memtable = record { entries = one_entry; approximate_size_bytes = bytes };
  immutable_memtable = none;
  sstable_paths = [];
  flush_worker = record { tasks = []; completions = []; started = true; stopping = false };
  next_sstable_id = 0;
  manifest = record { path = codes "M" };
  manifest_path = codes "M";
  wal = record { is_open = true; file = []; buffer = []; last_good_offset = 0 };
  seq = 1;
  group_commit_every = 5;
  opened = true;
}

store-Ready : Ready (store_of 50)
store-Ready = record { opened = refl; logging = refl; sorted = (tt, tt); numbered = omega arith }

there : is_some (find (codes "a") (store_of 50).map) ≡ true
unfolding find bytes_eq bytes_lt
there = refl

small_put :
    (put 48 (codes "a") 2 (codes "y") (store_of 50).memtable).approximate_size_bytes < 4194304
unfolding put
small_put = omega arith

small_del : (del 48 (codes "a") 2 (store_of 50).memtable).approximate_size_bytes < 4194304
unfolding del
small_del = omega arith

read_layers-put_example :
    read_layers (put_value 48 healthy (codes "a") (codes "y") (store_of 50)) [] (codes "a") 2 ≡ (
      if bytes_eq (codes "a") (codes "a") && leb 2 2
      then some (codes "y")
      else read_layers (store_of 50) [] (codes "a") 2)
read_layers-put_example =
    read_layers-put 48 healthy (codes "a") (codes "y") (store_of 50) [] (codes "a") 2 store-Ready
      small_put

read_layers-delete_example :
    read_layers (delete 48 healthy (codes "a") (store_of 50)).0 [] (codes "a") 1 ≡ (
      if bytes_eq (codes "a") (codes "a") && leb 2 1
      then none
      else read_layers (store_of 50) [] (codes "a") 1)
read_layers-delete_example =
    read_layers-delete 48 healthy (codes "a") (store_of 50) [] (codes "a") 1 store-Ready there
      small_del

kv_api-Laws_example : Laws (kv_api 48 (λ s. healthy)) IsOpen
kv_api-Laws_example = kv_api-Laws 48 (λ s. healthy)

-- An opening where nothing fails, of a store that is new, on a log of two records.
abbrev smooth : Opening
smooth = record {
  log_opens = true;
  log_seeks = true;
  replay_seeks = true;
  manifest = all_written;
  compacting = record {
    table = all_written;
    renames = true;
    removes = true;
    replacing = record { output = all_written; renames = true; removes = true };
  };
}

-- The store behind the queueing of its MemTable, and behind a put of another key.
abbrev hiding : KvStore
hiding = put_value 48 healthy (codes "b") (codes "y") (maybe_flush_memtable (store_of 5000000)).0

nothing_completed : hiding.flush_worker.completions ≡ []
unfolding put_value maybe_flush_memtable group_commit finish_write queue_entries enqueue append_put
    write_record
nothing_completed = refl

other_key : bytes_eq (codes "b") (codes "a") ≡ false
unfolding bytes_eq
other_key = refl

pending_flush_hides_example :
    ((maybe_flush_memtable (store_of 5000000)).1 ≡ true)
    × ((Compaction.get_at smooth.compacting (codes "a") 1 (hiding, [])).1
        ≡ lookup_tables (reverse []) [] (codes "a") 1)
pending_flush_hides_example =
    pending_flush_hides 48 (codes "a") (store_of 5000000) smooth.compacting [] 1 (omega arith) refl
      (λ e. cc) refl refl (puts healthy (codes "b") (codes "y") queues other_key) nothing_completed

smooth-Answering : Answering smooth
smooth-Answering = record {
  log_opens = refl;
  log_seeks = refl;
  replay_seeks = refl;
  manifest_opens = refl;
}

abbrev log : List WalRecord
log =
    record { type = put_type; seq = 1; key = codes "a"; value = codes "x" }
    ∷ record { type = del_type; seq = 2; key = codes "a"; value = [] }
    ∷ []

log-Fits : All Fits log
log-Fits = (
  record {
    seq_fits = omega arith;
    key_fits = omega arith;
    value_fits = omega arith;
    del_empty = λ e. cc;
  },
  (
    record {
      seq_fits = omega arith;
      key_fits = omega arith;
      value_fits = omega arith;
      del_empty = λ e. refl;
    },
    tt,
  ),
)

log-Ascending : Ascending (history log [])
log-Ascending = ((omega arith, tt), (tt, tt))

log-length : length (encoded log) ≡ 57
unfolding encode_record header_bytes
log-length = refl

abbrev new_store : Bytes → KvStore
new_store file = record (store_of 0) {
  map = [];
  memtable = empty_table;
  wal = record { is_open = false; file = file; buffer = []; last_good_offset = 0 };
  flush_worker = record { tasks = []; completions = []; started = false; stopping = false };
  seq = 0;
  opened = false;
}

no_snapshot : find {V = Bytes} snapshot_path [] ≡ none
unfolding find
no_snapshot = refl

open_store-recovers_example :
    let u = open_store 48 smooth (new_store (take 40 (encoded log))) [] in
    (k : ℕ) × (length (encoded (take k log)) ≤ 40)
    × ((length log ≤ k) ⊎ (40 < length (encoded (take (suc k) log))))
    × (u.2 ≡ true)
    × (u.0.seq ≡ greatest_seq (replay_record 48) (take k log) 0)
    × ((key : Bytes) (t : ℕ) → Answers key t (history (take k log) []) (get_at key t u.0.memtable))
open_store-recovers_example =
    open_store-recovers 48 smooth log 40 (new_store (take 40 (encoded log))) [] smooth-Answering
      refl refl no_snapshot refl (omega (arith, log-length)) log-Fits log-Ascending

one_entry-Saved : SavedEntries one_entry
one_entry-Saved = (
  record {
    tabless = (ground arith, tt);
    line = (ground arith, tt);
    filled = λ e. cc;
    good = ((omega arith, (ground arith, tt)), tt);
  },
  tt,
)

abbrev whole : Saving
whole = record { output = all_written; noticed = true }

load_from_file-save_to_file_example :
    ((save_to_file whole (codes "S") (store_of 50) []).1 ≡ true)
    × ((load_from_file 48
          (codes "S")
          (save_to_file whole (codes "S") (store_of 50) []).0
          (store_of 0)).1
        ≡ true)
    × ((k : Bytes) (t : ℕ)
        → get_at k t
            (load_from_file 48
              (codes "S")
              (save_to_file whole (codes "S") (store_of 50) []).0
              (store_of 0)).0.memtable
          ≡ get_at k t (store_of 50).memtable)
load_from_file-save_to_file_example =
    load_from_file-save_to_file 48 whole (codes "S") (store_of 50) (store_of 0) [] refl
      one_entry-Saved (tt, tt)

a-IsWord : IsWord (codes "a")
a-IsWord = ((λ e. cc), (unfold is_space in refl, tt))

x-IsWord : IsWord (codes "x")
x-IsWord = ((λ e. cc), (unfold is_space in refl, tt))

abbrev spaced : KvStore
spaced = record (store_of 50) { map = (codes "a", codes "x" ++ b' ' ∷ codes "a") ∷ [] }

load_snapshot-cuts_value_example :
    ((save_snapshot all_written true (codes "S") spaced []).1 ≡ true)
    × ((load_snapshot
          (codes "S")
          (save_snapshot all_written true (codes "S") spaced []).0
          (store_of 0)).1
        ≡ true)
    × (get
          (codes "a")
          (load_snapshot
            (codes "S")
            (save_snapshot all_written true (codes "S") spaced []).0
            (store_of 0)).0
        ≡ some (codes "x"))
load_snapshot-cuts_value_example =
    load_snapshot-cuts_value (codes "S") (codes "a") (codes "x") (codes "a") spaced (store_of 0) []
      refl a-IsWord x-IsWord a-IsWord

-- One table, with the id 1.
abbrev one_table : Files
one_table = (codes "M", flush_path 1 ++ 10 ∷ []) ∷ []

one_listed : load_sstables (record { path = codes "M" }) one_table ≡ flush_path 1 ∷ []
unfolding load_sstables nonempty lines flush_path print_uint find bytes_eq
one_listed = refl

open_reuses_path_example :
    In
      (flush_path (list_tables smooth (new_store []) one_table).0.next_sstable_id)
      (list_tables smooth (new_store []) one_table).0.sstable_paths
open_reuses_path_example =
    open_reuses_path smooth (new_store []) one_table (omega (arith, ap length one_listed))
      (rw one_listed (inl refl))

abbrev checkpointing : Checkpointing
checkpointing = record { saving = whole; removes = true; log_opens = true; log_seeks = true }

checkpoint_works : (checkpoint checkpointing snapshot_path (store_of 50) []).2 ≡ true
unfolding checkpoint save_to_file open_wal close_wal
checkpoint_works = refl

abbrev behind : KvStore
behind = new_store (checkpoint checkpointing snapshot_path (store_of 50) []).0.wal.file

open_store-checkpoint_example :
    ((open_store 48 smooth behind (checkpoint checkpointing snapshot_path (store_of 50) []).1).2
      ≡ true)
    × ((k : Bytes) (t : ℕ)
        → get_at k t
            (open_store 48 smooth behind
              (checkpoint checkpointing snapshot_path (store_of 50) []).1).0.memtable
          ≡ get_at k t (store_of 50).memtable)
open_store-checkpoint_example =
    open_store-checkpoint 48 checkpointing smooth (store_of 50) behind [] checkpoint_works refl
      smooth-Answering refl refl refl one_entry-Saved (tt, tt)

open_store-resets_seq_example :
    (open_store 48 smooth behind (checkpoint checkpointing snapshot_path (store_of 50) []).1).0.seq
    ≡ 0
open_store-resets_seq_example =
    open_store-resets_seq 48 checkpointing smooth (store_of 50) behind [] checkpoint_works refl
      smooth-Answering refl refl

-- The small store's log, with nothing in it.
log-Holds : Holds (store_of 50).wal [] []
log-Holds = record { opened = refl; stored = refl; pending = refl }

put_a-Fits : All Fits (put_record (codes "a") (codes "y") (store_of 50) ∷ [])
put_a-Fits = (
  record {
    seq_fits = omega arith;
    key_fits = omega arith;
    value_fits = omega arith;
    del_empty = λ e. cc;
  },
  tt,
)

abbrev crashed : KvStore
crashed =
    new_store
      (flush_wal healthy (put_value 48 healthy (codes "a") (codes "y") (store_of 50))).0.wal.file

put_value-survives_example :
    get_at (codes "a") 9 (open_store 48 smooth crashed []).0.memtable ≡ found_value (codes "y")
put_value-survives_example =
    put_value-survives 48 smooth (codes "a") (codes "y") (store_of 50) crashed [] [] [] 9
      (refl, refl) log-Holds put_a-Fits smooth-Answering refl refl no_snapshot refl (omega arith)
