-- ===== src/KvStore/Durability.antt =====
-- A put that was flushed to the log survives a crash.
use veri_store.Common.{
  ℕ, ◌+◌, ◌%◌, ◌≤◌, ◌≡◌, refl, sym, ap, ◌∙◌, ◌⊎◌, inl, inr, Bool, true, false, not, none, List, [],
  ◌∷◌, ◌++◌, Bytes, bytes_eq_refl, leb, if_intro, insert, find, All, append-nil, append_assoc, ◌==◌,
  arith,
}
use veri_store.Lookup.{found_value, result_of}
use veri_store.Files.{Files}
use veri_store.MemTable.{empty_table, put, get_at}
use veri_store.MemTable.Mvcc.{History, replay, replay-IsSorted, get_at-apply}
use veri_store.Wal.Record.{WalRecord, put_type, decode_record, read_exact}
use veri_store.Wal.Record.RoundTrip.{Fits}
use veri_store.Wal.File.{
  Wal, healthy, write_record, append_put, flush, open_wal, replay_file, Replayed,
}
use veri_store.Wal.File.Recovery.{encoded, summary, replay_file-tail}
use veri_store.Wal.File.Durability.{Holds, write_record-Holds, flush-Holds}
use veri_store.KvStore.{
  KvStore, u64_mod, queue_entries, maybe_flush_memtable, group_commit, finish_write, put_value,
  flush_wal,
}
use veri_store.KvStore.Api.{IsOpen}
use veri_store.KvStore.Opening.{Opening, replay_record, open_log, open_store, snapshot_path}
use veri_store.KvStore.Recovery.{
  Answering, history, write_of, replayed, open_log-replayed, unopened, apply_all-memtable,
}

-- The record of a put.
abbrev pub put_record : Bytes → Bytes → KvStore → WalRecord
put_record k v s = record { type = put_type; seq = (s.seq + 1) % u64_mod; key = k; value = v }

-- The log as it is, or flushed.
abbrev Flushed : Wal → Wal → Type 0
Flushed w x = (x ≡ w) ⊎ (x ≡ (flush healthy w).0)

maybe_flush-wal : (s : KvStore) → (maybe_flush_memtable s).0.wal ≡ s.wal
unfolding maybe_flush_memtable queue_entries
maybe_flush-wal s = ground arith

group_commit-Flushed : (s : KvStore) → Flushed s.wal (group_commit healthy s).0.wal
unfolding group_commit
group_commit-Flushed s =
    if_intro (λ (x : KvStore × Bool). Flushed s.wal x.0.wal) (s.seq % s.group_commit_every == 0)
      (λ _. inr refl) (λ _. inl refl)

finish_write-Flushed :
    (s : KvStore) → Flushed s.wal (finish_write healthy (maybe_flush_memtable s)).0.wal
unfolding finish_write
finish_write-Flushed s =
    let m = maybe_flush_memtable s in
    let good : KvStore × Bool → Type 0 = λ x. Flushed s.wal x.0.wal in
    if_intro good (not m.1) (λ _. inl (maybe_flush-wal s))
      (λ _. elim (group_commit-Flushed m.0) [
        | inl e ↦ inl (e ∙ maybe_flush-wal s)
        | inr e ↦ inr (e ∙ ap (λ w. (flush healthy w).0) (maybe_flush-wal s))
      ])

module _ (version_bytes : ℕ) where
  put_value-Flushed :
      (k v : Bytes) (s : KvStore)
      → IsOpen s
      → Flushed
          (write_record (put_record k v s) s.wal).0
          (put_value version_bytes healthy k v s).wal
  unfolding put_value append_put write_record
  put_value-Flushed k v s (o, w) =
      let stamp = (s.seq + 1) % u64_mod in
      let logged = append_put stamp k v s.wal in
      let good : KvStore → Type 0 = λ u. Flushed (write_record (put_record k v s) s.wal).0 u.wal in
      let written : KvStore = record s {
        seq = stamp;
        wal = logged.0;
        map = insert k v s.map;
        memtable = put version_bytes k stamp v s.memtable;
      } in
      if_intro good (not s.opened) (λ e. absurd (ground (arith, o, e)))
        λ _.
          if_intro good (not logged.1) (λ e. absurd (ground (arith, w, e)))
            (λ _. finish_write-Flushed written)

  -- The file of the log behind a put and a flush.
  put-file :
      (k v : Bytes) (s : KvStore) (rs bs : List WalRecord)
      → IsOpen s
      → Holds s.wal rs bs
      → (flush_wal healthy (put_value version_bytes healthy k v s)).0.wal.file
        ≡ encoded (rs ++ (bs ++ put_record k v s ∷ []))
  unfolding flush_wal
  put-file k v s rs bs o h =
      let r = put_record k v s in
      let logged = (write_record-Holds r s.wal rs bs h).1 in
      let once = (flush-Holds (write_record r s.wal).0 rs (bs ++ r ∷ []) logged).1 in
      let twice =
        (flush-Holds (flush healthy (write_record r s.wal).0).0 (rs ++ (bs ++ r ∷ [])) [] once).1 in
      elim (put_value-Flushed k v s o) [
        | inl e ↦ ap (λ (w : Wal). (flush healthy w).0.file) e ∙ once.stored
        | inr e ↦
            ap (λ (w : Wal). (flush healthy w).0.file) e
            ∙ (twice.stored ∙ ap encoded (append-nil (rs ++ (bs ++ r ∷ []))))
      ]

history-snoc :
    (rs : List WalRecord) (r : WalRecord) (h : History)
    → history (rs ++ r ∷ []) h ≡ write_of r ∷ history rs h
history-snoc [] r h = refl
history-snoc (q ∷ rs) r h = history-snoc rs r (write_of q ∷ h)

module _ (version_bytes : ℕ) where
  -- A put to an open store, flushed by `flush_wal`, survives a crash: a new store that is opened on the
  -- log's file, where nothing fails and no snapshot is there, finds the value at every time from the
  -- put's timestamp on. The log was whole, its records fit their fields, and the disk is sound.
  pub put_value-survives :
      (a : Opening) (k v : Bytes) (s u : KvStore) (rs bs : List WalRecord) (files : Files) (t : ℕ)
      → IsOpen s
      → Holds s.wal rs bs
      → All Fits (rs ++ (bs ++ put_record k v s ∷ []))
      → Answering a
      → u.opened ≡ false
      → u.memtable ≡ empty_table
      → find snapshot_path files ≡ none
      → u.wal.file ≡ (flush_wal healthy (put_value version_bytes healthy k v s)).0.wal.file
      → (s.seq + 1) % u64_mod ≤ t
      → get_at k t (open_store version_bytes a u files).0.memtable ≡ found_value v
  unfolding replayed
  put_value-survives a k v s u rs bs files t o h fits ans closed e nosnap file le =
      let r = put_record k v s in
      let all = rs ++ (bs ++ r ∷ []) in
      let before = history (rs ++ bs) [] in
      let with_log : KvStore = record u { wal = (open_wal true true u.wal).0 } in
      let visible : leb ((s.seq + 1) % u64_mod) t ≡ true = ground (arith, le) in
      let content : u.wal.file ≡ encoded all ++ [] =
        file ∙ (put-file version_bytes k v s rs bs o h ∙ sym (append-nil (encoded all))) in
      let read : replayed version_bytes u ≡ summary (replay_record version_bytes) all with_log =
        ap (λ x. replay_file (replay_record version_bytes) x with_log) content
        ∙ replay_file-tail (replay_record version_bytes) all [] with_log fits
            (unfold decode_record read_exact in refl) in
      let table : (open_log version_bytes a u files).0.memtable
          ≡ replay version_bytes (write_of r ∷ before) =
        (open_log-replayed version_bytes a u files ans).1
        ∙ (ap (λ (x : Replayed KvStore). x.store.memtable) read
            ∙ (apply_all-memtable version_bytes all [] with_log (e ∙ unfold replay in refl)
                ∙ ap (replay version_bytes) (
                    ap (λ x. history x []) (sym (append_assoc rs bs (r ∷ [])))
                    ∙ history-snoc (rs ++ bs) r []))) in
      ap (λ (x : KvStore × Files × Bool). get_at k t x.0.memtable)
        (unopened version_bytes a u files closed nosnap)
      ∙ (ap (get_at k t) table
          ∙ (unfold replay in
              get_at-apply version_bytes (replay version_bytes before) (write_of r) k t
                (replay-IsSorted version_bytes before)
              ∙ rw (bytes_eq_refl k) (rw visible (unfold result_of in refl))))
