-- ===== src/KvStore/Pending.antt =====
-- Reads of the store while a flush is pending: from `maybe_flush_memtable_unlocked` to the drain of
-- the completion, in src/kv_store.cpp.
use mathlib.Core.List.{reverse}
use veri_store.Common.{
  ℕ, ◌+◌, ◌%◌, ◌≤◌, ◌≡◌, ◌≢◌, refl, ap, ◌∙◌, Bool, true, false, not, ◌||◌, none, some, [], Bytes,
  ltb, bytes_eq, if_intro, find, insert, erase, IsSorted, arith,
}
use veri_store.Lookup.{not_found, lookup_entries, lookup_versions}
use veri_store.MemTable.{MemTable, put, del, get_at, take_entries}
use veri_store.MemTable.Mvcc.{Write, apply, apply-IsSorted, get_at-apply}
use veri_store.Wal.File.{Disk, append_put, append_del}
use veri_store.FlushWorker.{FlushWorker, enqueue}
use veri_store.Files.{Files}
use veri_store.KvStore.{
  KvStore, u64_mod, flush_threshold, queue_entries, is_empty_entries, maybe_flush_memtable,
  finish_write, put_value, delete, flush_wal, is_some, lookup_tables, read_layers,
}
use veri_store.KvStore.Compaction
use veri_store.KvStore.Compaction.{Compacting, take_completions, drain_completed_flushes}
use veri_store.KvStore.Reads.{SameLayers, group_commit-SameLayers}

-- A store whose flush is pending has the moved-from map for the flushed table.
record IsHidden (k : Bytes) (s u : KvStore) : Type 0 where
  pending : u.immutable_memtable ≡ some []
  tables : u.sstable_paths ≡ s.sstable_paths
  sorted : IsSorted u.memtable.entries
  unwritten : (t : ℕ) → get_at k t u.memtable ≡ not_found

IsHidden-SameLayers :
    (k : Bytes) (s u v : KvStore) → IsHidden k s u → SameLayers u v → IsHidden k s v
IsHidden-SameLayers k s u v h (m, i, p) = record {
  pending = i ∙ h.pending;
  tables = p ∙ h.tables;
  sorted = rw m h.sorted;
  unwritten = λ t. ap (get_at k t) m ∙ h.unwritten t;
}

read_layers-IsHidden :
    (k : Bytes) (s u : KvStore) (files : Files) (t : ℕ)
    → IsHidden k s u
    → read_layers u files k t ≡ lookup_tables (reverse s.sstable_paths) files k t
unfolding read_layers lookup_entries lookup_versions find
read_layers-IsHidden k s u files t h = rw (h.unwritten t) (rw h.pending (rw h.tables refl))

apply-unwritten :
    (version_bytes : ℕ) (k : Bytes) (m : MemTable) (w : Write) (t : ℕ)
    → IsSorted m.entries
    → bytes_eq w.key k ≡ false
    → get_at k t (apply version_bytes m w) ≡ get_at k t m
apply-unwritten version_bytes k m w t sorted ne =
    get_at-apply version_bytes m w k t sorted ∙ rw ne refl

-- No flush is queued while one is pending.
finish_write-pending :
    (disk : Disk) (s : KvStore)
    → s.immutable_memtable ≡ some []
    → SameLayers s (finish_write disk (maybe_flush_memtable s)).0
unfolding finish_write maybe_flush_memtable
finish_write-pending disk s h =
    if_intro (λ (r : KvStore × Bool). SameLayers s (finish_write disk r).0)
      (ltb s.memtable.approximate_size_bytes flush_threshold) (λ _. group_commit-SameLayers disk s)
      λ _.
        if_intro (λ (r : KvStore × Bool). SameLayers s (finish_write disk r).0)
          (is_some s.immutable_memtable) (λ _. (refl, refl, refl))
          (λ e. absurd (ground (arith, h, e)))

module _ (version_bytes : ℕ) (k : Bytes) (s : KvStore) where
  with_write-IsHidden :
      (disk : Disk) (w : Write) (u v : KvStore)
      → bytes_eq w.key k ≡ false
      → IsHidden k s u
      → v.memtable ≡ apply version_bytes u.memtable w
      → v.immutable_memtable ≡ u.immutable_memtable
      → v.sstable_paths ≡ u.sstable_paths
      → IsHidden k s (finish_write disk (maybe_flush_memtable v)).0
  with_write-IsHidden disk w u v ne h m i p =
      let hidden : IsHidden k s v = record {
        pending = i ∙ h.pending;
        tables = p ∙ h.tables;
        sorted = rw m (apply-IsSorted version_bytes u.memtable w h.sorted);
        unwritten = λ t.
            ap (get_at k t) m
            ∙ (apply-unwritten version_bytes k u.memtable w t h.sorted ne ∙ h.unwritten t);
      } in
      IsHidden-SameLayers k s v (finish_write disk (maybe_flush_memtable v)).0 hidden
        (finish_write-pending disk v hidden.pending)

  put_value-IsHidden :
      (disk : Disk) (j v : Bytes) (u : KvStore)
      → bytes_eq j k ≡ false
      → IsHidden k s u
      → IsHidden k s (put_value version_bytes disk j v u)
  unfolding put_value apply
  put_value-IsHidden disk j v u ne h =
      let stamp = (u.seq + 1) % u64_mod in
      let logged = append_put stamp j v u.wal in
      let w : Write = record { key = j; timestamp = stamp; value = some v } in
      if_intro (IsHidden k s) (not u.opened) (λ _. h)
        λ _.
          if_intro (IsHidden k s) (not logged.1)
            (λ _.
              IsHidden-SameLayers k s u (record u { seq = stamp; wal = logged.0 }) h
                (refl, refl, refl))
            (λ _.
              with_write-IsHidden disk w u
                (record u {
                  seq = stamp;
                  wal = logged.0;
                  map = insert j v u.map;
                  memtable = put version_bytes j stamp v u.memtable;
                })
                ne h refl refl refl)

  delete-IsHidden :
      (disk : Disk) (j : Bytes) (u : KvStore)
      → bytes_eq j k ≡ false
      → IsHidden k s u
      → IsHidden k s (delete version_bytes disk j u).0
  unfolding delete apply
  delete-IsHidden disk j u ne h =
      let stamp = (u.seq + 1) % u64_mod in
      let logged = append_del stamp j u.wal in
      let w : Write = record { key = j; timestamp = stamp; value = none } in
      let hidden : KvStore × Bool → Type 0 = λ r. IsHidden k s r.0 in
      if_intro hidden (not u.opened || not (is_some (find j u.map))) (λ _. h)
        λ _.
          if_intro hidden (not logged.1)
            (λ _.
              IsHidden-SameLayers k s u (record u { seq = stamp; wal = logged.0 }) h
                (refl, refl, refl))
            (λ _.
              with_write-IsHidden disk w u
                (record u {
                  seq = stamp;
                  wal = logged.0;
                  map = erase j u.map;
                  memtable = del version_bytes j stamp u.memtable;
                })
                ne h refl refl refl)

-- A drain where nothing has completed changes no layer.
drain-SameLayers :
    (a : Compacting) (u : KvStore) (files : Files)
    → u.flush_worker.completions ≡ []
    → SameLayers u (drain_completed_flushes a u files).0
      × ((drain_completed_flushes a u files).1 ≡ files)
unfolding drain_completed_flushes take_completions Compaction.add_paths
drain-SameLayers a u files e = ground (arith, e)

-- What may happen to a store from the queueing of a flush on, as long as no drain finds a
-- completion and the key is not written: puts and deletes of other keys with whatever the disk does,
-- flushes of the log, reads of any key, and the work of the flush thread on its queues.
pub data Pending (version_bytes : ℕ) (k : Bytes) (s : KvStore) : KvStore → Type 0 where
  queues : Pending version_bytes k s (maybe_flush_memtable s).0
  puts :
      {u : KvStore} (disk : Disk) (j v : Bytes)
      → Pending version_bytes k s u
      → bytes_eq j k ≡ false
      → Pending version_bytes k s (put_value version_bytes disk j v u)
  deletes :
      {u : KvStore} (disk : Disk) (j : Bytes)
      → Pending version_bytes k s u
      → bytes_eq j k ≡ false
      → Pending version_bytes k s (delete version_bytes disk j u).0
  flushes :
      {u : KvStore} (disk : Disk)
      → Pending version_bytes k s u
      → Pending version_bytes k s (flush_wal disk u).0
  reads :
      {u : KvStore} (a : Compacting) (j : Bytes) (t : ℕ) (files : Files)
      → Pending version_bytes k s u
      → u.flush_worker.completions ≡ []
      → Pending version_bytes k s (Compaction.get_at a j t (u, files)).0.0
  works :
      {u : KvStore} (w : FlushWorker)
      → Pending version_bytes k s u
      → Pending version_bytes k s (record u { flush_worker = w })

-- When the MemTable is full and not empty, no flush is pending and the flush thread accepts tasks,
-- the flush is accepted, and it hides its table.
queued-IsHidden :
    (s : KvStore) (k : Bytes)
    → flush_threshold ≤ s.memtable.approximate_size_bytes
    → s.immutable_memtable ≡ none
    → s.memtable.entries ≢ []
    → s.flush_worker.started ≡ true
    → s.flush_worker.stopping ≡ false
    → ((maybe_flush_memtable s).1 ≡ true) × IsHidden k s (maybe_flush_memtable s).0
unfolding maybe_flush_memtable queue_entries take_entries enqueue get_at lookup_entries
    lookup_versions find
queued-IsHidden s k full free some_entries on going =
    let hides : KvStore × Bool → Type 0 = λ r. (r.1 ≡ true) × IsHidden k s r.0 in
    if_intro hides (ltb s.memtable.approximate_size_bytes flush_threshold)
      (λ e. absurd (ground arith))
      λ _.
        if_intro hides (is_some s.immutable_memtable) (λ e. absurd (ground (arith, free)))
          λ _.
            if_intro hides (is_empty_entries s.memtable.entries)
              (λ e. absurd (ground (arith, some_entries)))
              (λ _. (
                ground (arith, on, going),
                record { pending = refl; tables = refl; sorted = tt; unwritten = λ t. refl },
              ))

Pending-IsHidden :
    (version_bytes : ℕ) (k : Bytes) (s : KvStore) {u : KvStore}
    → IsHidden k s (maybe_flush_memtable s).0
    → Pending version_bytes k s u
    → IsHidden k s u
unfolding flush_wal Compaction.get_at
Pending-IsHidden vb k s h queues = h
Pending-IsHidden vb k s h (puts {u} disk j v r ne) =
    put_value-IsHidden vb k s disk j v u ne (Pending-IsHidden vb k s h r)
Pending-IsHidden vb k s h (deletes {u} disk j r ne) =
    delete-IsHidden vb k s disk j u ne (Pending-IsHidden vb k s h r)
Pending-IsHidden vb k s h (flushes {u} disk r) =
    IsHidden-SameLayers k s u (flush_wal disk u).0 (Pending-IsHidden vb k s h r) (refl, refl, refl)
Pending-IsHidden vb k s h (reads {u} a j t files r e) =
    IsHidden-SameLayers k s u (drain_completed_flushes a u files).0 (Pending-IsHidden vb k s h r)
      (drain-SameLayers a u files e).0
Pending-IsHidden vb k s h (works {u} w r) =
    IsHidden-SameLayers k s u (record u { flush_worker = w }) (Pending-IsHidden vb k s h r)
      (refl, refl, refl)

-- When the MemTable is full and not empty, no flush is pending and the flush thread accepts tasks,
-- the flush is accepted. Along any puts and deletes of other keys, flushes of the log, reads and work
-- of the flush thread from then on, as long as no read finds a completion to drain, a read of the key
-- sees nothing of the table that is flushed: `get_at` returns what the tables say that the store
-- listed before.
pub pending_flush_hides :
    (version_bytes : ℕ) (k : Bytes) (s : KvStore) {u : KvStore} (a : Compacting) (files : Files)
    (t : ℕ)
    → flush_threshold ≤ s.memtable.approximate_size_bytes
    → s.immutable_memtable ≡ none
    → s.memtable.entries ≢ []
    → s.flush_worker.started ≡ true
    → s.flush_worker.stopping ≡ false
    → Pending version_bytes k s u
    → u.flush_worker.completions ≡ []
    → ((maybe_flush_memtable s).1 ≡ true)
      × ((Compaction.get_at a k t (u, files)).1 ≡ lookup_tables (reverse s.sstable_paths) files k t)
unfolding Compaction.get_at
pending_flush_hides version_bytes k s {u} a files t full free some_entries on going r e =
    let (queued, hidden) = queued-IsHidden s k full free some_entries on going in
    let now = Pending-IsHidden version_bytes k s hidden r in
    let (same, same_files) = drain-SameLayers a u files e in
    let drained = drain_completed_flushes a u files in
    (
      queued,
      read_layers-IsHidden k s drained.0 drained.1 t (IsHidden-SameLayers k s u drained.0 now same)
          ∙ ap (λ fs. lookup_tables (reverse s.sstable_paths) fs k t) same_files,
    )
