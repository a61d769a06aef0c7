-- ===== src/KvStore/Recovery.antt =====
-- What `open` makes of the log that a crash leaves.
use mathlib.Core.Path.{subst}
use veri_store.Common.{
  ℕ, zero, suc, ◌<◌, ◌≤◌, ◌≡◌, refl, sym, ap, ◌∙◌, ◌⊎◌, Bool, true, false, not, Option, none, some,
  List, [], ◌∷◌, Bytes, length, take, if_intro, find, arith, All, bytes_eq,
}
use veri_store.Files.{Files}
use veri_store.MemTable.{empty_table, get_at}
use veri_store.MemTable.Mvcc.{Write, History, Ascending, Answers, apply, replay, get_at-replay}
use veri_store.Wal.Record.{WalRecord, RecordType, put_type, del_type}
use veri_store.Wal.Record.RoundTrip.{Fits}
use veri_store.Wal.File.{Wal, open_wal, Replayed, replay_file, replay_into}
use veri_store.Wal.File.Recovery.{encoded, apply_all, greatest_seq, summary, crash_recovery}
use veri_store.Manifest.{open_manifest, load_sstables}
use veri_store.KvStore.{KvStore}
use veri_store.KvStore.Compaction.{Compacting, maybe_compact, compact_first, install, publish}
use veri_store.KvStore.Snapshot.{Change, apply_change, load_from_file}
use veri_store.KvStore.Opening.{
  Opening, next_id, list_tables, open_tables, replay_record, open_log, open_store, snapshot_path,
}

-- What a record was written for: a value, or a deletion.
abbrev pub written : RecordType → Bytes → Option Bytes
written put_type value = some value
written del_type value = none

abbrev pub write_of : WalRecord → Write
write_of r = record { key = r.key; timestamp = r.seq; value = written r.type r.value }

-- The writes of a log's records, onto a history.
abbrev pub history : List WalRecord → History → History
history [] h = h
history (r ∷ rs) h = history rs (write_of r ∷ h)

Ascending-rest : (rs : List WalRecord) (h : History) → Ascending (history rs h) → Ascending h
Ascending-rest [] h a = a
Ascending-rest (r ∷ rs) h a = (Ascending-rest rs _ a).1

Ascending-take :
    (k : ℕ) (rs : List WalRecord) (h : History)
    → Ascending (history rs h)
    → Ascending (history (take k rs) h)
Ascending-take zero rs h a = Ascending-rest rs h a
Ascending-take (suc k) [] h a = a
Ascending-take (suc k) (r ∷ rs) h a = Ascending-take k rs _ a

-- What a compaction may not change.
abbrev SameData : KvStore → KvStore → Type 0
SameData s u = (u.memtable ≡ s.memtable) × (u.seq ≡ s.seq) × (u.map ≡ s.map)

publish-SameData :
    (a : _) (first second output : Bytes) (rest : List Bytes) (s : KvStore) (files : Files)
    → SameData s (publish a first second output rest s files).0
unfolding publish
publish-SameData a first second output rest s files = ground arith

install-SameData :
    (a : _) (first second output : Bytes) (rest : List Bytes) (o : Option Bytes) (s : KvStore)
    (files : Files)
    → SameData s (install a first second output rest o s files).0
unfolding install
install-SameData a first second output rest none s files = (refl, refl, refl)
install-SameData a first second output rest (some table) s files =
    ground (arith, publish-SameData a first second output rest s)

compact_first-SameData :
    (a : Compacting) (paths : List Bytes) (s : KvStore) (files : Files)
    → SameData s (compact_first a paths s files).0
compact_first-SameData a [] s files = (refl, refl, refl)
compact_first-SameData a (first ∷ []) s files = (refl, refl, refl)
compact_first-SameData a (first ∷ second ∷ rest) s files =
    if_intro (λ (x : KvStore × Files × Bool). SameData s x.0) (bytes_eq first second)
      (λ _. (refl, refl, refl))
      (λ _. install-SameData a first second _ rest _ (record s { next_sstable_id = _ }) files)

maybe_compact-SameData :
    (a : Compacting) (s : KvStore) (files : Files) → SameData s (maybe_compact a s files).0
unfolding maybe_compact
maybe_compact-SameData a s files =
    if_intro (λ (x : KvStore × Files × Bool). SameData s x.0) _ (λ _. (refl, refl, refl))
      (λ _. compact_first-SameData a s.sstable_paths s files)

list_tables-SameData :
    (a : Opening) (s : KvStore) (files : Files) → SameData s (list_tables a s files).0
unfolding list_tables
list_tables-SameData a s files =
    let paths = load_sstables s.manifest files in
    let listed : KvStore = record s { sstable_paths = paths; next_sstable_id = next_id paths 0 } in
    maybe_compact-SameData a.compacting listed files

open_tables-SameData :
    (a : Opening) (s : KvStore) (files : Files) → SameData s (open_tables a s files).0
unfolding open_tables
open_tables-SameData a s files =
    let opened = open_manifest a.manifest s.manifest_path files in
    let with_manifest : KvStore = record s { manifest = opened.0 } in
    if_intro (λ (x : KvStore × Files × Bool). SameData s x.0) (not opened.2)
      {x = (with_manifest, opened.1, false)} {y = list_tables a with_manifest opened.1}
      (λ _. (refl, refl, refl)) (λ _. list_tables-SameData a with_manifest opened.1)

-- What the system answers where nothing fails; the compaction may.
pub record Answering (a : Opening) : Type 0 where
  pub log_opens : a.log_opens ≡ true
  pub log_seeks : a.log_seeks ≡ true
  pub replay_seeks : a.replay_seeks ≡ true
  pub manifest_opens : a.manifest.opens ≡ true

open_tables-true :
    (a : Opening) (s : KvStore) (files : Files)
    → a.manifest.opens ≡ true
    → (open_tables a s files).2 ≡ true
unfolding open_tables list_tables open_manifest
open_tables-true a s files h = rw h refl

module _ (version_bytes : ℕ) where
  apply_change-memtable :
      (c : Change) (s : KvStore)
      → (apply_change version_bytes c s).memtable
        ≡ apply version_bytes s.memtable
            (record { key = c.key; timestamp = c.timestamp; value = c.value })
  unfolding apply_change apply
  apply_change-memtable c s = ground arith

  replay_record-memtable :
      (type : RecordType) (seq : ℕ) (key value : Bytes) (s : KvStore)
      → (replay_record version_bytes
          (record { type = type; seq = seq; key = key; value = value })
          s).memtable
        ≡ apply version_bytes s.memtable
            (record { key = key; timestamp = seq; value = written type value })
  unfolding replay_record
  replay_record-memtable put_type seq key value s =
      apply_change-memtable (record { key = key; timestamp = seq; value = some value }) s
  replay_record-memtable del_type seq key value s =
      apply_change-memtable (record { key = key; timestamp = seq; value = none }) s

  pub apply_all-memtable :
      (rs : List WalRecord) (h : History) (s : KvStore)
      → s.memtable ≡ replay version_bytes h
      → (apply_all (replay_record version_bytes) rs s).memtable
        ≡ replay version_bytes (history rs h)
  apply_all-memtable [] h s e = e
  apply_all-memtable (r ∷ rs) h s e = apply_all-memtable rs _ (replay_record version_bytes r s) (
      replay_record-memtable r.type r.seq r.key r.value s
      ∙ unfold replay in ap (λ m. apply version_bytes m (write_of r)) e)

  -- What the replay of the log makes of a store whose log is open.
  unfoldable pub replayed : KvStore → Replayed KvStore
  replayed s =
      replay_file (replay_record version_bytes) s.wal.file
        (record s { wal = (open_wal true true s.wal).0 })

  -- What it makes of a file that begins with these records.
  pub replayed_file :
      (rs : List WalRecord) (n k : ℕ) (s : KvStore)
      → s.wal.file ≡ take n (encoded rs)
      → replay_file
          (replay_record version_bytes)
          (take n (encoded rs))
          (record s { wal = (open_wal true true s.wal).0 })
        ≡ summary
            (replay_record version_bytes)
            (take k rs)
            (record s { wal = (open_wal true true s.wal).0 })
      → replayed s
        ≡ summary
            (replay_record version_bytes)
            (take k rs)
            (record s { wal = (open_wal true true s.wal).0 })
  unfolding replayed
  replayed_file rs n k s file same =
      ap
        (λ x.
          replay_file (replay_record version_bytes) x
            (record s { wal = (open_wal true true s.wal).0 }))
        file
      ∙ same

  -- An opening where nothing fails goes on with what the replay leaves.
  pub open_log-replayed :
      (a : Opening) (s : KvStore) (files : Files)
      → Answering a
      → ((open_log version_bytes a s files).2 ≡ true)
        × ((open_log version_bytes a s files).0.memtable ≡ (replayed s).store.memtable)
        × ((open_log version_bytes a s files).0.seq ≡ (replayed s).max_seq)
        × ((open_log version_bytes a s files).0.map ≡ (replayed s).store.map)
  unfolding open_log replayed open_wal replay_into
  open_log-replayed a s files h =
      let r = replayed s in
      let w : Wal = record s.wal { is_open = true; last_good_offset = r.last_good } in
      let ready : KvStore = record (r.store) { wal = w; seq = r.max_seq; opened = true } in
      let kept = open_tables-SameData a ready files in
      rw h.log_opens (
        rw h.log_seeks (
          rw h.replay_seeks
            (open_tables-true a ready files h.manifest_opens, kept.0, kept.1, kept.2)))

  pub unopened :
      (a : Opening) (s : KvStore) (files : Files)
      → s.opened ≡ false
      → find snapshot_path files ≡ none
      → open_store version_bytes a s files ≡ open_log version_bytes a s files
  unfolding open_store load_from_file
  unopened a s files o n = rw o (rw n refl)

  -- A new store that is opened on what a crash leaves of its log, where nothing fails and no snapshot
  -- is there, holds exactly the writes of the longest run of whole records that is left: every read of
  -- its MemTable at any time returns the newest of them that it can see, and its sequence number is
  -- their greatest. The records fit their fields and their sequence numbers grow.
  pub open_store-recovers :
      (a : Opening) (rs : List WalRecord) (n : ℕ) (s : KvStore) (files : Files)
      → Answering a
      → s.opened ≡ false
      → s.memtable ≡ empty_table
      → find snapshot_path files ≡ none
      → s.wal.file ≡ take n (encoded rs)
      → n ≤ length (encoded rs)
      → All Fits rs
      → Ascending (history rs [])
      → (k : ℕ) × (length (encoded (take k rs)) ≤ n)
        × ((length rs ≤ k) ⊎ (n < length (encoded (take (suc k) rs))))
        × ((open_store version_bytes a s files).2 ≡ true)
        × ((open_store version_bytes a s files).0.seq
            ≡ greatest_seq (replay_record version_bytes) (take k rs) 0)
        × ((key : Bytes) (t : ℕ)
            → Answers key t
                (history (take k rs) [])
                (get_at key t (open_store version_bytes a s files).0.memtable))
  unfolding replayed
  open_store-recovers a rs n s files h o e nosnap file len fits asc =
      let with_log : KvStore = record s { wal = (open_wal true true s.wal).0 } in
      let (k, low, high, same) =
        crash_recovery (replay_record version_bytes) rs n with_log fits len in
      let read = replayed_file rs n k s file same in
      let (ok, mem, seq, _) = open_log-replayed a s files h in
      let table : (open_log version_bytes a s files).0.memtable
          ≡ replay version_bytes (history (take k rs) []) =
        mem
        ∙ (ap (λ (r : Replayed KvStore). r.store.memtable) read
            ∙ apply_all-memtable (take k rs) [] with_log (e ∙ unfold replay in refl)) in
      rw (unopened a s files o nosnap) (
        k,
        low,
        high,
        ok,
        seq ∙ ap (λ (r : Replayed KvStore). r.max_seq) read,
        λ key t.
            subst (λ m. Answers key t (history (take k rs) []) (get_at key t m)) (sym table)
              (get_at-replay version_bytes (history (take k rs) []) key t
                (Ascending-take k rs [] asc)),
      )
