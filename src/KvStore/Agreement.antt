-- ===== src/KvStore/Agreement.antt =====
-- The map and the MemTable, which the code keeps side by side, say the same after a load and after an
-- opening.
use veri_store.Common.{
  ℕ, zero, suc, ◌≤◌, ◌≡◌, refl, sym, ap, ◌∙◌, Bool, true, false, none, List, [], ◌∷◌, Bytes, length,
  take, find, IsSorted, All,
}
use veri_store.Lookup.{Version, Entries}
use veri_store.MemTable.{get_at, empty_table}
use veri_store.Wal.Record.{WalRecord}
use veri_store.Wal.Record.RoundTrip.{Fits}
use veri_store.Wal.File.{open_wal, Replayed}
use veri_store.Wal.File.Recovery.{encoded, apply_all, crash_recovery}
use veri_store.Files.{Files, all_written}
use veri_store.KvStore.{KvStore, get}
use veri_store.KvStore.Snapshot.{
  Saving, Change, apply_change, load_change, save_to_file, load_from_file,
}
use veri_store.KvStore.Snapshot.RoundTrip.{
  SavedEntries, load_from_file-save_to_file, change, load_versions, load_entries, emptied,
  loaded_entries,
}
use veri_store.KvStore.Changes.{Agrees, empty-Agrees, apply_change-Agrees}
use veri_store.KvStore.Opening.{
  Opening, change_of_record, replay_record, open_log, open_store, snapshot_path,
}
use veri_store.KvStore.Recovery.{Answering, replayed_file, open_log-replayed, unopened}

moved-Agrees :
    (t : ℕ) (s u : KvStore) → u.map ≡ s.map → u.memtable ≡ s.memtable → Agrees t s → Agrees t u
moved-Agrees t s u m e h = record { sorted = rw e h.sorted; same = λ k. rw m (rw e (h.same k)) }

abbrev pub AllBefore : ℕ → Entries → Type 0
AllBefore t [] = Unit
AllBefore t ((key, vs) ∷ es) = All (λ v. v.timestamp ≤ t) vs × AllBefore t es

All-take :
    (t k : ℕ) (rs : List WalRecord) → All (λ r. r.seq ≤ t) rs → All (λ r. r.seq ≤ t) (take k rs)
All-take t zero rs h = tt
All-take t (suc k) [] h = tt
All-take t (suc k) (r ∷ rs) (p, h) = (p, All-take t k rs h)

module _ (version_bytes : ℕ) where
  load_change-Agrees :
      (t : ℕ) (c : Change) (s : KvStore)
      → c.timestamp ≤ t
      → Agrees t s
      → Agrees t (load_change version_bytes c s)
  load_change-Agrees t c s le h =
      moved-Agrees t (apply_change version_bytes c s) (load_change version_bytes c s) refl refl
        (apply_change-Agrees version_bytes t c s le h)

  load_versions-Agrees :
      (t : ℕ) (key : Bytes) (vs : List Version) (s : KvStore)
      → All (λ v. v.timestamp ≤ t) vs
      → Agrees t s
      → Agrees t (load_versions version_bytes key vs s)
  load_versions-Agrees t key [] s b h = h
  load_versions-Agrees t key (v ∷ vs) s (le, b) h =
      load_versions-Agrees t key vs (load_change version_bytes (change key v) s) b
        (load_change-Agrees t (change key v) s le h)

  load_entries-Agrees :
      (t : ℕ) (es : Entries) (s : KvStore)
      → AllBefore t es
      → Agrees t s
      → Agrees t (load_entries version_bytes es s)
  load_entries-Agrees t [] s b h = h
  load_entries-Agrees t ((key, vs) ∷ es) s (b, bs) h =
      load_entries-Agrees t es (load_versions version_bytes key vs s) bs
        (load_versions-Agrees t key vs s b h)

  -- After the load of a save that was written whole, `get` returns of each key its newest version that
  -- was saved: what a read of the saved MemTable returns at a time that no version lies behind.
  pub get-load_from_file :
      (a : Saving) (path : Bytes) (s u : KvStore) (files : Files) (t : ℕ) (k : Bytes)
      → a.output ≡ all_written
      → SavedEntries s.memtable.entries
      → IsSorted s.memtable.entries
      → AllBefore t s.memtable.entries
      → get k (load_from_file version_bytes path (save_to_file a path s files).0 u).0
        ≡ (get_at k t s.memtable).value
  unfolding get emptied
  get-load_from_file a path s u files t k w g sorted b =
      let loaded = loaded_entries version_bytes a path s u files w g in
      let agrees =
        load_entries-Agrees t s.memtable.entries (emptied version_bytes u) b
          (empty-Agrees t (emptied version_bytes u) refl refl) in
      let (_, _, reads) = load_from_file-save_to_file version_bytes a path s u files w g sorted in
      ap (λ (x : KvStore × Bool). find k x.0.map) loaded
      ∙ (agrees.same k
          ∙ (sym (ap (λ (x : KvStore × Bool). (get_at k t x.0.memtable).value) loaded)
              ∙ ap (λ r. r.value) (reads k t)))

  apply_all-Agrees :
      (t : ℕ) (rs : List WalRecord) (s : KvStore)
      → All (λ r. r.seq ≤ t) rs
      → Agrees t s
      → Agrees t (apply_all (replay_record version_bytes) rs s)
  unfolding replay_record
  apply_all-Agrees t [] s b h = h
  apply_all-Agrees t (r ∷ rs) s (le, b) h =
      apply_all-Agrees t rs (replay_record version_bytes r s) b
        (apply_change-Agrees version_bytes t (change_of_record r) s le h)

  -- After the opening of a new store on what a crash leaves of its log, where nothing fails and no
  -- snapshot is there, `get` returns of each key what a read of the MemTable returns at any time that
  -- no record of the log lies behind. The records fit their fields.
  pub open_store-Agrees :
      (a : Opening) (rs : List WalRecord) (n : ℕ) (s : KvStore) (files : Files) (t : ℕ)
      → Answering a
      → s.opened ≡ false
      → s.map ≡ []
      → s.memtable ≡ empty_table
      → find snapshot_path files ≡ none
      → s.wal.file ≡ take n (encoded rs)
      → n ≤ length (encoded rs)
      → All Fits rs
      → All (λ r. r.seq ≤ t) rs
      → Agrees t (open_store version_bytes a s files).0
  open_store-Agrees a rs n s files t h o m e nosnap file len fits b =
      let with_log : KvStore = record s { wal = (open_wal true true s.wal).0 } in
      let (k, low, high, same) =
        crash_recovery (replay_record version_bytes) rs n with_log fits len in
      let read = replayed_file version_bytes rs n k s file same in
      let (ok, mem, seq, map) = open_log-replayed version_bytes a s files h in
      rw (unopened version_bytes a s files o nosnap) (
        moved-Agrees t (apply_all (replay_record version_bytes) (take k rs) with_log)
          (open_log version_bytes a s files).0
          (map ∙ ap (λ (r : Replayed KvStore). r.store.map) read)
          (mem ∙ ap (λ (r : Replayed KvStore). r.store.memtable) read)
          (apply_all-Agrees t (take k rs) with_log (All-take t k rs b)
            (empty-Agrees t with_log m e)))
