-- ===== src/KvStore/Reads.antt =====
-- Reads of the store after a write.
use veri_store.Common.{
  ℕ, ◌+◌, ◌%◌, ◌<◌, ◌≡◌, refl, ◌∙◌, Bool, true, false, not, ◌&&◌, ◌||◌, none, some, Bytes, ltb, leb,
  ◌==◌, bytes_eq, if◌then◌else◌, if_intro, find, insert, erase, IsSorted, arith,
}
use veri_store.Lookup.{result_of}
use veri_store.MemTable.{put, del}
use veri_store.MemTable.Mvcc.{Write, apply, get_at-apply}
use veri_store.Wal.File.{Disk, append_put, append_del, write_record}
use veri_store.Files.{Files}
use veri_store.KvStore.{
  KvStore, u64_mod, flush_threshold, maybe_flush_memtable, group_commit, finish_write, put_value,
  delete, is_some, read_layers,
}

-- The store takes writes, and its sequence numbers have not run out.
pub record Ready (s : KvStore) : Type 0 where
  pub opened : s.opened ≡ true
  pub logging : s.wal.is_open ≡ true
  pub sorted : IsSorted s.memtable.entries
  pub numbered : s.seq + 1 < u64_mod

-- The layers that a read looks at.
abbrev pub SameLayers : KvStore → KvStore → Type 0
SameLayers s u =
    (u.memtable ≡ s.memtable)
    × (u.immutable_memtable ≡ s.immutable_memtable)
    × (u.sstable_paths ≡ s.sstable_paths)

pub group_commit-SameLayers : (disk : Disk) (s : KvStore) → SameLayers s (group_commit disk s).0
unfolding group_commit
group_commit-SameLayers disk s =
    if_intro (λ (r : KvStore × Bool). SameLayers s r.0) (s.seq % s.group_commit_every == 0)
      (λ _. (refl, refl, refl)) (λ _. (refl, refl, refl))

finish_write-SameLayers :
    (disk : Disk) (s : KvStore)
    → s.memtable.approximate_size_bytes < flush_threshold
    → SameLayers s (finish_write disk (maybe_flush_memtable s)).0
unfolding finish_write maybe_flush_memtable
finish_write-SameLayers disk s lt =
    if_intro (λ (r : KvStore × Bool). SameLayers s (finish_write disk r).0)
      (ltb s.memtable.approximate_size_bytes flush_threshold) (λ _. group_commit-SameLayers disk s)
      (λ e. absurd (ground arith))

read_layers-SameLayers :
    (s u : KvStore) (files : Files) (k : Bytes) (t : ℕ)
    → SameLayers s u
    → read_layers u files k t ≡ read_layers s files k t
unfolding read_layers
read_layers-SameLayers s u files k t (m, i, p) = rw m (rw i (rw p refl))

-- The store with one more version in its MemTable.
abbrev with_write : ℕ → Write → KvStore → KvStore
with_write version_bytes w s = record s { memtable = apply version_bytes s.memtable w }

read_layers-with_write :
    (version_bytes : ℕ) (w : Write) (s : KvStore) (files : Files) (j : Bytes) (t : ℕ)
    → IsSorted s.memtable.entries
    → read_layers (with_write version_bytes w s) files j t
      ≡ (if bytes_eq w.key j && leb w.timestamp t then w.value else read_layers s files j t)
unfolding read_layers result_of
read_layers-with_write version_bytes w s files j t sorted =
    ground (arith, get_at-apply version_bytes s.memtable w j t sorted)

-- `put` with the number that it gives the write.
abbrev put_stamped : ℕ → Disk → Bytes → Bytes → ℕ → KvStore → KvStore
put_stamped version_bytes disk key value stamp s =
    let logged = append_put stamp key value s.wal in
    if not s.opened
    then s
    else if not logged.1
    then record s { seq = stamp; wal = logged.0 }
    else (finish_write disk (
        maybe_flush_memtable (record s {
          seq = stamp;
          wal = logged.0;
          map = insert key value s.map;
          memtable = put version_bytes key stamp value s.memtable;
        }))).0

put_stamped-SameLayers :
    (version_bytes : ℕ) (disk : Disk) (k v : Bytes) (stamp : ℕ) (s : KvStore)
    → Ready s
    → (put version_bytes k stamp v s.memtable).approximate_size_bytes < flush_threshold
    → SameLayers
        (with_write version_bytes (record { key = k; timestamp = stamp; value = some v }) s)
        (put_stamped version_bytes disk k v stamp s)
unfolding apply append_put write_record
put_stamped-SameLayers version_bytes disk k v stamp s r lt =
    let w : Write = record { key = k; timestamp = stamp; value = some v } in
    if_intro (SameLayers (with_write version_bytes w s)) (not s.opened)
      (λ e. absurd (ground (arith, r.opened)))
      λ _.
        if_intro (SameLayers (with_write version_bytes w s)) (not (append_put stamp k v s.wal).1)
          (λ e. absurd (ground (arith, r.logging)))
          (λ _.
            finish_write-SameLayers disk
              (record s {
                seq = stamp;
                wal = (append_put stamp k v s.wal).0;
                map = insert k v s.map;
                memtable = put version_bytes k stamp v s.memtable;
              })
              lt)

put_value_lem :
    (version_bytes : ℕ) (disk : Disk) (k v : Bytes) (s : KvStore)
    → put_value version_bytes disk k v s
      ≡ put_stamped version_bytes disk k v ((s.seq + 1) % u64_mod) s
unfolding put_value
put_value_lem version_bytes disk k v s = refl

put_value-SameLayers :
    (version_bytes : ℕ) (disk : Disk) (k v : Bytes) (s : KvStore)
    → Ready s
    → (put version_bytes k (s.seq + 1) v s.memtable).approximate_size_bytes < flush_threshold
    → SameLayers
        (with_write version_bytes (record { key = k; timestamp = s.seq + 1; value = some v }) s)
        (put_value version_bytes disk k v s)
put_value-SameLayers version_bytes disk k v s r lt =
    let small : (s.seq + 1) % u64_mod ≡ s.seq + 1 = omega (arith, r.numbered) in
    rw (put_value_lem version_bytes disk k v s)
      (rw small (put_stamped-SameLayers version_bytes disk k v (s.seq + 1) s r lt))

-- A put to a store that takes writes, where no flush is due: a read of the layers returns the new
-- value for its key at every later read timestamp, and else what it returned before.
pub read_layers-put :
    (version_bytes : ℕ) (disk : Disk) (k v : Bytes) (s : KvStore) (files : Files) (j : Bytes)
    (t : ℕ)
    → Ready s
    → (put version_bytes k (s.seq + 1) v s.memtable).approximate_size_bytes < flush_threshold
    → read_layers (put_value version_bytes disk k v s) files j t
      ≡ (if bytes_eq k j && leb (s.seq + 1) t then some v else read_layers s files j t)
read_layers-put version_bytes disk k v s files j t r lt =
    let w : Write = record { key = k; timestamp = s.seq + 1; value = some v } in
    read_layers-SameLayers (with_write version_bytes w s) (put_value version_bytes disk k v s) files
      j t (put_value-SameLayers version_bytes disk k v s r lt)
    ∙ read_layers-with_write version_bytes w s files j t r.sorted

-- `delete` behind its tests, with the number that it gives the write.
abbrev delete_stamped : ℕ → Disk → Bytes → ℕ → KvStore → KvStore × Bool
delete_stamped version_bytes disk key stamp s =
    let logged = append_del stamp key s.wal in
    if not s.opened || not (is_some (find key s.map))
    then (s, false)
    else if not logged.1
    then (record s { seq = stamp; wal = logged.0 }, false)
    else finish_write disk (
        maybe_flush_memtable (record s {
          seq = stamp;
          wal = logged.0;
          map = erase key s.map;
          memtable = del version_bytes key stamp s.memtable;
        }))

delete_stamped-SameLayers :
    (version_bytes : ℕ) (disk : Disk) (k : Bytes) (stamp : ℕ) (s : KvStore)
    → Ready s
    → is_some (find k s.map) ≡ true
    → (del version_bytes k stamp s.memtable).approximate_size_bytes < flush_threshold
    → SameLayers
        (with_write version_bytes (record { key = k; timestamp = stamp; value = none }) s)
        (delete_stamped version_bytes disk k stamp s).0
unfolding apply append_del write_record
delete_stamped-SameLayers version_bytes disk k stamp s r there lt =
    let layers : KvStore × Bool → Type 0 = λ u.
      SameLayers (with_write version_bytes (record { key = k; timestamp = stamp; value = none }) s)
        u.0 in
    if_intro layers (not s.opened || not (is_some (find k s.map)))
      (λ e. absurd (ground (arith, r.opened, there)))
      λ _.
        if_intro layers (not (append_del stamp k s.wal).1) (λ e. absurd (ground (arith, r.logging)))
          (λ _.
            finish_write-SameLayers disk
              (record s {
                seq = stamp;
                wal = (append_del stamp k s.wal).0;
                map = erase k s.map;
                memtable = del version_bytes k stamp s.memtable;
              })
              lt)

delete_lem :
    (version_bytes : ℕ) (disk : Disk) (k : Bytes) (s : KvStore)
    → delete version_bytes disk k s ≡ delete_stamped version_bytes disk k ((s.seq + 1) % u64_mod) s
unfolding delete
delete_lem version_bytes disk k s = refl

delete-SameLayers :
    (version_bytes : ℕ) (disk : Disk) (k : Bytes) (s : KvStore)
    → Ready s
    → is_some (find k s.map) ≡ true
    → (del version_bytes k (s.seq + 1) s.memtable).approximate_size_bytes < flush_threshold
    → SameLayers
        (with_write version_bytes (record { key = k; timestamp = s.seq + 1; value = none }) s)
        (delete version_bytes disk k s).0
delete-SameLayers version_bytes disk k s r there lt =
    let small : (s.seq + 1) % u64_mod ≡ s.seq + 1 = omega (arith, r.numbered) in
    rw (delete_lem version_bytes disk k s)
      (rw small (delete_stamped-SameLayers version_bytes disk k (s.seq + 1) s r there lt))

-- A delete of a key that the store's map has, where the store takes writes and no flush is due: a
-- read of the layers finds nothing for the key at every later read timestamp, and else what it found
-- before.
pub read_layers-delete :
    (version_bytes : ℕ) (disk : Disk) (k : Bytes) (s : KvStore) (files : Files) (j : Bytes) (t : ℕ)
    → Ready s
    → is_some (find k s.map) ≡ true
    → (del version_bytes k (s.seq + 1) s.memtable).approximate_size_bytes < flush_threshold
    → read_layers (delete version_bytes disk k s).0 files j t
      ≡ (if bytes_eq k j && leb (s.seq + 1) t then none else read_layers s files j t)
read_layers-delete version_bytes disk k s files j t r there lt =
    let w : Write = record { key = k; timestamp = s.seq + 1; value = none } in
    read_layers-SameLayers (with_write version_bytes w s) (delete version_bytes disk k s).0 files j
      t (delete-SameLayers version_bytes disk k s r there lt)
    ∙ read_layers-with_write version_bytes w s files j t r.sorted
