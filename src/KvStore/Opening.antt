-- ===== src/KvStore/Opening.antt =====
-- `open` and `checkpoint`. The log keeps its file with it, so the log's path is left out; the file is
-- what is there when the log is opened.
use veri_store.Common.{
  ℕ, ◌+◌, ◌-◌, ◌%◌, max, Bool, true, false, not, Option, none, some, List, [], ◌∷◌, Bytes, codes,
  length, take, drop, leb, bytes_eq, if◌then◌else◌,
}
use veri_store.Text.Numbers.{stoull}
use veri_store.Files.{Files, Output}
use veri_store.Wal.Record.{WalRecord, put_type, del_type}
use veri_store.Wal.File.{Wal, open_wal, close_wal, Replayed, replay_into}
use veri_store.Manifest.{open_manifest, load_sstables}
use veri_store.FlushWorker.{start}
use veri_store.KvStore.{KvStore, u64_mod}
use veri_store.KvStore.Compaction.{Compacting, maybe_compact}
use veri_store.KvStore.Snapshot.{Saving, Change, apply_change, save_to_file, load_from_file}

-- `find_last_of('-')` and `rfind(".sst")`: the last place where what stands there begins with the text.
unfoldable pub last_place : Bytes → Bytes → Option ℕ
last_place text [] = none
last_place text (c ∷ bytes) = elim (last_place text bytes) [
  | some i ↦ some (i + 1)
  | none ↦ if bytes_eq (take (length text) (c ∷ bytes)) text then some 0 else none
]

abbrev pub zero_or : Option ℕ → ℕ
zero_or none = 0
zero_or (some n) = n

abbrev pub id_at : Bytes → Option ℕ → Option ℕ → ℕ
id_at path (some dash) (some dot) =
    if leb dot (dash + 1)
    then 0
    else zero_or (stoull (take (dot - dash - 1) (drop (dash + 1) path)))
id_at path _ _ = 0

unfoldable pub extract_sstable_id : Bytes → ℕ
unfolding last_place stoull
extract_sstable_id path = id_at path (last_place (codes "-") path) (last_place (codes ".sst") path)

-- The loop over the paths of the tables.
unfoldable pub next_id : List Bytes → ℕ → ℕ
unfolding extract_sstable_id
next_id [] id = id
next_id (p ∷ paths) id = next_id paths (max id ((extract_sstable_id p + 1) % u64_mod))

-- A record of the log as a change of the store.
abbrev pub change_of_record : WalRecord → Change
change_of_record r = record {
  key = r.key;
  timestamp = r.seq;
  value = elim r.type [ put_type ↦ some r.value | del_type ↦ none ];
}

-- What the system answers to the calls of `open`: to the opening of the log, to the two seeks in it, to
-- the opening of the manifest, and to a compaction.
pub record Opening : Type 0 where
  pub log_opens : Bool
  pub log_seeks : Bool
  pub replay_seeks : Bool
  pub manifest : Output
  pub compacting : Compacting

-- Behind the opening of the manifest.
unfoldable pub list_tables : Opening → KvStore → Files → KvStore × Files × Bool
unfolding next_id maybe_compact load_sstables start
list_tables a s files =
    let paths = load_sstables s.manifest files in
    let listed : KvStore = record s { sstable_paths = paths; next_sstable_id = next_id paths 0 } in
    let compacted = maybe_compact a.compacting listed files in
    (
      record (compacted.0) {
        flush_worker = start compacted.0.flush_worker;
        next_sstable_id = length compacted.0.sstable_paths;
      },
      compacted.1,
      true,
    )

unfoldable pub open_tables : Opening → KvStore → Files → KvStore × Files × Bool
unfolding list_tables open_manifest
open_tables a s files =
    let opened = open_manifest a.manifest s.manifest_path files in
    let with_manifest : KvStore = record s { manifest = opened.0 } in
    if not opened.2 then (with_manifest, opened.1, false) else list_tables a with_manifest opened.1

abbrev pub snapshot_path : Bytes
snapshot_path = codes "/tmp/kv.snapshot"

abbrev pub after_replay :
    Opening → KvStore → Wal × Option (Replayed KvStore) → Files → KvStore × Files × Bool
after_replay a s (w, none) files = (record s { wal = w }, files, false)
after_replay a s (w, some r) files =
    open_tables a (record (r.store) { wal = w; seq = r.max_seq; opened = true }) files

module _ (version_bytes : ℕ) where
  unfoldable pub replay_record : WalRecord → KvStore → KvStore
  unfolding apply_change
  replay_record r = apply_change version_bytes (change_of_record r)

  -- Behind the loading of the snapshot.
  unfoldable pub open_log : Opening → KvStore → Files → KvStore × Files × Bool
  unfolding open_wal replay_into replay_record open_tables
  open_log a s files =
      let log = open_wal a.log_opens a.log_seeks s.wal in
      let with_log : KvStore = record s { wal = log.0 } in
      if not log.1
      then (with_log, files, false)
      else after_replay a with_log (replay_into replay_record a.replay_seeks with_log log.0) files

  unfoldable pub open_store : Opening → KvStore → Files → KvStore × Files × Bool
  unfolding open_log load_from_file
  open_store a s files =
      if s.opened
      then (s, files, true)
      else open_log a (load_from_file version_bytes snapshot_path files s).0 files

-- What the system answers to the calls of `checkpoint`: the log's file may be removed or stay.
pub record Checkpointing : Type 0 where
  pub saving : Saving
  pub removes : Bool
  pub log_opens : Bool
  pub log_seeks : Bool

abbrev pub rotate : Checkpointing → Wal → Wal × Bool
rotate a w =
    let closed = close_wal w in
    open_wal a.log_opens a.log_seeks
      (record closed { file = if a.removes then [] else closed.file })

unfoldable pub checkpoint : Checkpointing → Bytes → KvStore → Files → KvStore × Files × Bool
unfolding save_to_file open_wal close_wal
checkpoint a path s files =
    let saved = save_to_file a.saving path s files in
    let log = rotate a s.wal in
    if not s.opened
    then (s, files, false)
    else if not saved.1
    then (s, saved.0, false)
    else (record s { wal = log.0 }, saved.0, log.1)
