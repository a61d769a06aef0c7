-- ===== src/KvStore/Checkpoint.antt =====
-- The opening of a store behind a checkpoint.
use veri_store.Common.{
  ℕ, ◌≡◌, refl, ap, ◌∙◌, Bool, true, false, not, List, [], ◌∷◌, Bytes, if_intro, find, IsSorted,
  arith, Option-cases, inl, inr,
}
use veri_store.MemTable.{get_at}
use veri_store.Wal.Record.{decode_record, read_exact}
use veri_store.Wal.File.{Wal, open_wal, close_wal, replay_file, replay_loop}
use veri_store.Files.{Files, all_written}
use veri_store.Text.{lines}
use veri_store.KvStore.{KvStore}
use veri_store.KvStore.Snapshot.{
  apply_change, load_change, load_lines, load_from_file, parse_change, save_to_file, Change,
}
use veri_store.KvStore.Snapshot.RoundTrip.{SavedEntries, load_from_file-save_to_file}
use veri_store.KvStore.Opening.{
  Opening, open_log, open_store, snapshot_path, Checkpointing, rotate, checkpoint,
}
use veri_store.KvStore.Recovery.{Answering, replayed, open_log-replayed}

-- A checkpoint that succeeds has saved, and opened the log anew.
checkpoint_done :
    (c : Checkpointing) (path : Bytes) (s : KvStore) (files : Files)
    → (checkpoint c path s files).2 ≡ true
    → ((checkpoint c path s files).1 ≡ (save_to_file c.saving path s files).0)
      × ((checkpoint c path s files).0.wal ≡ (rotate c s.wal).0)
unfolding checkpoint
checkpoint_done c path s files =
    let saved = save_to_file c.saving path s files in
    let log = rotate c s.wal in
    let done : KvStore × Files × Bool → Type 0 =
      λ x. x.2 ≡ true → (x.1 ≡ saved.0) × (x.0.wal ≡ log.0) in
    if_intro done (not s.opened) (λ _ e. absurd (ground (arith, e)))
      λ _. if_intro done (not saved.1) (λ _ e. absurd (ground (arith, e))) (λ _ e. (refl, refl))

rotate-file : (c : Checkpointing) (w : Wal) → c.removes ≡ true → (rotate c w).0.file ≡ []
unfolding open_wal close_wal
rotate-file c w h = ground (arith, h)

module _ (version_bytes : ℕ) where
  apply_change-wal : (c : Change) (s : KvStore) → (apply_change version_bytes c s).wal ≡ s.wal
  unfolding apply_change
  apply_change-wal c s = ground arith

  load_lines-wal : (ls : List Bytes) (s : KvStore) → (load_lines version_bytes ls s).0.wal ≡ s.wal
  unfolding load_lines
  load_lines-wal [] s = refl
  load_lines-wal ([] ∷ ls) s = load_lines-wal ls s
  load_lines-wal ((x ∷ l) ∷ ls) s = elim (Option-cases (parse_change (x ∷ l))) [
    | inl e ↦ rw (e, load_lines) refl
    | inr (c, e) ↦
        rw (e, load_lines)
          (load_lines-wal ls (load_change version_bytes c s) ∙ apply_change-wal c s)
  ]

  load_from_file-wal :
      (path : Bytes) (files : Files) (s : KvStore)
      → (load_from_file version_bytes path files s).0.wal ≡ s.wal
  unfolding load_from_file
  load_from_file-wal path files s = elim (Option-cases (find path files)) [
    | inl e ↦ rw e refl
    | inr (text, e) ↦ rw e (load_lines-wal (lines text) _)
  ]

  -- The replay of an empty log.
  replayed-empty :
      (s : KvStore)
      → s.wal.file ≡ []
      → ((replayed version_bytes s).store.memtable ≡ s.memtable)
        × ((replayed version_bytes s).max_seq ≡ 0)
  unfolding replayed replay_file replay_loop decode_record read_exact
  replayed-empty s e = rw e (refl, refl)

  closed :
      (a : Opening) (u : KvStore) (files : Files)
      → u.opened ≡ false
      → open_store version_bytes a u files
        ≡ open_log version_bytes a (load_from_file version_bytes snapshot_path files u).0 files
  unfolding open_store
  closed a u files o =
      if_intro
        (λ (x : KvStore × Files × Bool).
          x ≡ open_log version_bytes a (load_from_file version_bytes snapshot_path files u).0 files)
        u.opened (λ e. absurd (ground (arith, o))) (λ _. refl)

  -- An opening behind a checkpoint whose files are `files`.
  open_store-empty_log :
      (a : Opening) (u : KvStore) (files : Files)
      → Answering a
      → u.opened ≡ false
      → u.wal.file ≡ []
      → ((open_store version_bytes a u files).2 ≡ true)
        × ((open_store version_bytes a u files).0.memtable
            ≡ (load_from_file version_bytes snapshot_path files u).0.memtable)
        × ((open_store version_bytes a u files).0.seq ≡ 0)
  open_store-empty_log a u files h o e =
      let loaded = (load_from_file version_bytes snapshot_path files u).0 in
      let (ok, mem, seq, _) = open_log-replayed version_bytes a loaded files h in
      let (same, none_read) =
        replayed-empty loaded
          (ap (λ (w : Wal). w.file) (load_from_file-wal snapshot_path files u) ∙ e) in
      let same_store = closed a u files o in
      (
        ap (λ (x : KvStore × Files × Bool). x.2) same_store ∙ ok,
        ap (λ (x : KvStore × Files × Bool). x.0.memtable) same_store ∙ (mem ∙ same),
        ap (λ (x : KvStore × Files × Bool). x.0.seq) same_store ∙ (seq ∙ none_read),
      )

  module _ (c : Checkpointing) (a : Opening) (s u : KvStore) (files : Files)
      (done : (checkpoint c snapshot_path s files).2 ≡ true) (removed : c.removes ≡ true)
      (answering : Answering a) (new : u.opened ≡ false)
      (log : u.wal.file ≡ (checkpoint c snapshot_path s files).0.wal.file) where
    empty_log : u.wal.file ≡ []
    empty_log =
        log
        ∙ (ap (λ (w : Wal). w.file) (checkpoint_done c snapshot_path s files done).1
            ∙ rotate-file c s.wal removed)

    -- A new store that is opened where a checkpoint has succeeded, written its snapshot whole and
    -- removed the log, returns for every read of its MemTable what the old one returned.
    pub open_store-checkpoint :
        c.saving.output ≡ all_written
        → SavedEntries s.memtable.entries
        → IsSorted s.memtable.entries
        → ((open_store version_bytes a u (checkpoint c snapshot_path s files).1).2 ≡ true)
          × ((k : Bytes) (t : ℕ)
              → get_at k t
                  (open_store version_bytes a u (checkpoint c snapshot_path s files).1).0.memtable
                ≡ get_at k t s.memtable)
    open_store-checkpoint w g sorted =
        let after = (checkpoint c snapshot_path s files).1 in
        let (ok, mem, _) = open_store-empty_log a u after answering new empty_log in
        let (_, _, reads) =
          load_from_file-save_to_file version_bytes c.saving snapshot_path s u files w g sorted in
        (
          ok,
          λ k t.
              ap (get_at k t) (
                mem
                ∙ ap (λ x. (load_from_file version_bytes snapshot_path x u).0.memtable)
                    (checkpoint_done c snapshot_path s files done).0)
              ∙ reads k t,
        )

    -- Its sequence numbers start at zero again, whatever timestamps the snapshot has.
    pub open_store-resets_seq :
        (open_store version_bytes a u (checkpoint c snapshot_path s files).1).0.seq ≡ 0
    open_store-resets_seq =
        (open_store-empty_log a u (checkpoint c snapshot_path s files).1 answering new empty_log).2
