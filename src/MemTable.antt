-- ===== src/MemTable.antt =====
-- include/kv/memtable.h and src/memtable.cpp: the in-memory table of versions. The mutex makes each
-- method atomic, so a method is a function on the table. `version_bytes` is `sizeof(Version)`, which
-- the platform's ABI fixes.
pub mod Versions
pub mod Mvcc
pub mod Size
mod Tests
use veri_store.Common.{
  ℕ, ◌+◌, ◌%◌, ◌^◌, Bool, true, false, Option, none, some, List, [], ◌∷◌, ◌++◌, Bytes, length,
  modify,
}
use veri_store.Lookup.{Version, LookupResult, Entries, lookup_entries}

pub record MemTable : Type 0 where
  pub entries : Entries
  pub approximate_size_bytes : ℕ

abbrev pub empty_table : MemTable
empty_table = record { entries = []; approximate_size_bytes = 0 }

-- `entries_[key].push_back(version)`
unfoldable pub push_version : Bytes → Version → Entries → Entries
push_version key v = modify key [] (λ versions. versions ++ v ∷ [])

abbrev pub sizeof_timestamp : ℕ
sizeof_timestamp = 8

-- Sizes are `size_t`.
abbrev pub size_mod : ℕ
size_mod = 2 ^ 64

module _ (version_bytes : ℕ) where
  unfoldable pub put : Bytes → ℕ → Bytes → MemTable → MemTable
  put key timestamp value m = record {
    entries = push_version key (record { timestamp = timestamp; value = some value }) m.entries;
    approximate_size_bytes =
        (m.approximate_size_bytes + (length key + length value + sizeof_timestamp + version_bytes))
        % size_mod;
  }

  unfoldable pub del : Bytes → ℕ → MemTable → MemTable
  del key timestamp m = record {
    entries = push_version key (record { timestamp = timestamp; value = none }) m.entries;
    approximate_size_bytes =
        (m.approximate_size_bytes + (length key + sizeof_timestamp + version_bytes)) % size_mod;
  }

unfoldable pub is_empty : MemTable → Bool
is_empty m = elim m.entries [ [] ↦ true | _ ↦ false ]

-- `take_entries`: the entries, and the table left behind.
unfoldable pub take_entries : MemTable → Entries × MemTable
take_entries m = (m.entries, empty_table)

unfoldable pub get_at : Bytes → ℕ → MemTable → LookupResult
get_at key read_timestamp m = lookup_entries m.entries key read_timestamp

unfoldable pub key_count : MemTable → ℕ
key_count m = length m.entries

unfoldable pub clear : MemTable → MemTable
clear m = empty_table

unfoldable pub snapshot_entries : MemTable → Entries
snapshot_entries m = m.entries
