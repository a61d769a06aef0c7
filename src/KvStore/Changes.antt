-- ===== src/KvStore/Changes.antt =====
-- One change of the map and the MemTable, as a replay and the loading of a snapshot make them.
use veri_store.Common.{
  ℕ, ◌≤◌, ◌≡◌, refl, ◌∙◌, ◌&&◌, Option, none, some, [], Bytes, bytes_eq, leb, if◌then◌else◌, find,
  find-insert, find-erase, IsSorted, arith, Option-cases, inl, inr,
}
use veri_store.Lookup.{result_of, lookup_entries, lookup_versions}
use veri_store.MemTable.{push_version, get_at, empty_table}
use veri_store.MemTable.Versions.{lookup_entries-push, push_version-IsSorted}
use veri_store.KvStore.{KvStore}
use veri_store.KvStore.Snapshot.{Change, apply_change}

-- The map holds of every key what a read of the MemTable at `t` returns.
pub record Agrees (t : ℕ) (s : KvStore) : Type 0 where
  pub sorted : IsSorted s.memtable.entries
  pub same : (k : Bytes) → find k s.map ≡ (get_at k t s.memtable).value

pub empty-Agrees : (t : ℕ) (s : KvStore) → s.map ≡ [] → s.memtable ≡ empty_table → Agrees t s
unfolding get_at lookup_entries lookup_versions find
empty-Agrees t s e f = record { sorted = rw f tt; same = λ k. rw e (rw f refl) }

module _ (version_bytes : ℕ) where
  pub apply_change-entries :
      (c : Change) (s : KvStore)
      → (apply_change version_bytes c s).memtable.entries
        ≡ push_version c.key
            (record { timestamp = c.timestamp; value = c.value })
            s.memtable.entries
  unfolding apply_change
  apply_change-entries c s = ground arith

  pub apply_change-IsSorted :
      (c : Change) (s : KvStore)
      → IsSorted s.memtable.entries
      → IsSorted (apply_change version_bytes c s).memtable.entries
  apply_change-IsSorted c s h = rw (apply_change-entries c s) (
      push_version-IsSorted c.key (record { timestamp = c.timestamp; value = c.value })
        s.memtable.entries h)

  get_at-apply_change :
      (c : Change) (s : KvStore) (k : Bytes) (t : ℕ)
      → IsSorted s.memtable.entries
      → get_at k t (apply_change version_bytes c s).memtable ≡ (
          if bytes_eq c.key k && leb c.timestamp t
          then result_of c.value
          else get_at k t s.memtable)
  unfolding get_at
  get_at-apply_change c s k t h = rw (apply_change-entries c s) (
      lookup_entries-push c.key (record { timestamp = c.timestamp; value = c.value })
        s.memtable.entries k t h)

  find-apply_change :
      (c : Change) (s : KvStore) (k : Bytes)
      → find k (apply_change version_bytes c s).map
        ≡ (if bytes_eq c.key k then c.value else find k s.map)
  unfolding apply_change
  find-apply_change c s k = elim (Option-cases c.value) [
    | inl e ↦ rw (e, apply_change) (find-erase c.key k s.map)
    | inr (v, e) ↦ rw (e, apply_change) (find-insert c.key k v s.map)
  ]

  result_of-value : (o : Option Bytes) → (result_of o).value ≡ o
  unfolding result_of
  result_of-value none = refl
  result_of-value (some v) = refl

  pub apply_change-Agrees :
      (t : ℕ) (c : Change) (s : KvStore)
      → c.timestamp ≤ t
      → Agrees t s
      → Agrees t (apply_change version_bytes c s)
  apply_change-Agrees t c s le h = record {
    sorted = apply_change-IsSorted c s h.sorted;
    same = λ k.
        find-apply_change c s k
        ∙ ground (arith, get_at-apply_change c s k t h.sorted, result_of-value c.value, h.same k);
  }
