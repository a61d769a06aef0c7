-- ===== src/KvStore/Api.antt =====
-- The store as what the object store needs of it.
use veri_store.Common.{
  ℕ, ◌+◌, ◌%◌, ◌≡◌, ◌≢◌, ◌↔◌, refl, ap, ◌∙◌, Bool, true, not, ◌||◌, none, [], ◌∷◌, Bytes,
  bytes_eq_iff, if_intro, Dict, find, insert, erase, find-insert, find-erase, arith, In, length,
  take,
}
use veri_store.Wal.File.{Wal, Disk, append_put, append_del, write_record, flush}
use veri_store.MemTable.{put, del}
use veri_store.ObjectStore.KvApi.{KvApi, Laws, StartsWith}
use veri_store.KvStore.{
  KvStore, u64_mod, is_some, queue_entries, maybe_flush_memtable, group_commit, finish_write,
  put_value, delete, get, flush_wal, starts_with, keys_with_prefix, list_keys_with_prefix,
}

-- What a step of the store may not change: the map, and that the store and its log are open.
abbrev Keeps : KvStore → KvStore → Type 0
Keeps s u = (u.map ≡ s.map) × (u.opened ≡ s.opened) × (u.wal.is_open ≡ s.wal.is_open)

flush-is_open : (disk : Disk) (w : Wal) → (flush disk w).0.is_open ≡ w.is_open
unfolding flush
flush-is_open disk w = ground arith

write_record-is_open : (r : _) (w : Wal) → (write_record r w).0.is_open ≡ w.is_open
unfolding write_record
write_record-is_open r w = ground arith

maybe_flush-Keeps : (s : KvStore) → Keeps s (maybe_flush_memtable s).0
unfolding maybe_flush_memtable queue_entries
maybe_flush-Keeps s = ground arith

group_commit-Keeps : (disk : Disk) (s : KvStore) → Keeps s (group_commit disk s).0
unfolding group_commit
group_commit-Keeps disk s = ground (arith, flush-is_open disk s.wal)

finish_write-Keeps :
    (disk : Disk) (s : KvStore) → Keeps s (finish_write disk (maybe_flush_memtable s)).0
unfolding finish_write
finish_write-Keeps disk s =
    ground (arith, maybe_flush-Keeps s, group_commit-Keeps disk (maybe_flush_memtable s).0)

-- The store and its log are open.
abbrev pub IsOpen : KvStore → Type 0
IsOpen s = (s.opened ≡ true) × (s.wal.is_open ≡ true)

put_value-IsOpen :
    (version_bytes : ℕ) (disk : Disk) (k v : Bytes) (s : KvStore)
    → IsOpen s
    → ((put_value version_bytes disk k v s).map ≡ insert k v s.map)
      × IsOpen (put_value version_bytes disk k v s)
unfolding put_value append_put write_record
put_value-IsOpen version_bytes disk k v s (o, w) =
    let good : KvStore → Type 0 = λ u. (u.map ≡ insert k v s.map) × IsOpen u in
    let stamp = (s.seq + 1) % u64_mod in
    let logged = append_put stamp k v s.wal in
    let written : KvStore = record s {
      seq = stamp;
      wal = logged.0;
      map = insert k v s.map;
      memtable = put version_bytes k stamp v s.memtable;
    } in
    if_intro good (not s.opened) (λ e. absurd (ground (arith, o)))
      λ _.
        if_intro good (not logged.1) (λ e. absurd (ground (arith, w)))
          (λ _. ground (arith, finish_write-Keeps disk written, w, o))

delete-IsOpen :
    (version_bytes : ℕ) (disk : Disk) (k j : Bytes) (s : KvStore)
    → IsOpen s
    → (find j (delete version_bytes disk k s).0.map ≡ find j (erase k s.map))
      × IsOpen (delete version_bytes disk k s).0
unfolding delete append_del write_record
delete-IsOpen version_bytes disk k j s (o, w) =
    let good : KvStore × Bool → Type 0 =
      λ u. (find j u.0.map ≡ find j (erase k s.map)) × IsOpen u.0 in
    let stamp = (s.seq + 1) % u64_mod in
    let logged = append_del stamp k s.wal in
    let written : KvStore = record s {
      seq = stamp;
      wal = logged.0;
      map = erase k s.map;
      memtable = del version_bytes k stamp s.memtable;
    } in
    if_intro good (not s.opened || not (is_some (find k s.map)))
      (λ e. (
        ground (
          arith,
          o,
          find-erase k j s.map,
          bytes_eq_iff k j,
          λ (x : k ≡ j). ap (λ y. find y s.map) x,
        ),
        (o, w),
      ))
      λ _.
        if_intro good (not logged.1) (λ e. absurd (ground (arith, w)))
          (λ _.
            let kept = finish_write-Keeps disk written in
            (ap (find j) kept.0, ground (arith, kept.1, w, o)))

keys_with_prefix_iff :
    (prefix k : Bytes) (m : Dict Bytes)
    → In k (keys_with_prefix prefix m) ↔ (StartsWith prefix k × (find k m ≢ none))
unfolding keys_with_prefix starts_with find
keys_with_prefix_iff prefix k [] = (λ i. absurd i, λ p. absurd (p.1 refl))
keys_with_prefix_iff prefix k ((j, v) ∷ m) = ground (
  arith,
  keys_with_prefix_iff prefix k m,
  bytes_eq_iff j k,
  bytes_eq_iff (take (length prefix) j) prefix,
  λ (e : j ≡ k). ap (λ x. take (length prefix) x) e,
)

module _ (version_bytes : ℕ) (disk : KvStore → Disk) where
  abbrev pub kv_api : KvApi KvStore
  kv_api = record {
    get = get;
    put = λ k v s. put_value version_bytes (disk s) k v s;
    del = λ k s. delete version_bytes (disk s) k s;
    list_keys_with_prefix = list_keys_with_prefix;
    flush_wal = λ s. flush_wal (disk s) s;
  }

  -- The store keeps the laws that the object store relies on as long as it is open, whatever the disk
  -- does to its log.
  pub kv_api-Laws : Laws kv_api IsOpen
  unfolding get list_keys_with_prefix flush_wal
  kv_api-Laws = record {
    get-put = λ k v j s o.
        ap (find j) (put_value-IsOpen version_bytes (disk s) k v s o).0 ∙ find-insert k j v s.map;
    get-del = λ k j s o. (delete-IsOpen version_bytes (disk s) k j s o).0 ∙ find-erase k j s.map;
    get-flush_wal = λ j s. refl;
    put-IsReady = λ k v s o. (put_value-IsOpen version_bytes (disk s) k v s o).1;
    del-IsReady = λ k s o. (delete-IsOpen version_bytes (disk s) k k s o).1;
    flush_wal-IsReady = λ s o. (o.0, flush-is_open (disk s) s.wal ∙ o.1);
    list-iff = λ prefix k s. keys_with_prefix_iff prefix k s.map;
  }
