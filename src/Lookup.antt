-- ===== src/Lookup.antt =====
-- include/kv/version.h and include/kv/lookup_result.h: a version of a value, and the result of a
-- lookup. A lookup of the newest visible version walks the versions of a key from the back, as
-- `MemTable::get_at` and `lookup_entries` do.
pub mod Versions
use mathlib.Core.List.{reverse}
use veri_store.Common.{
  ℕ, Bool, true, false, Option, none, some, List, [], ◌∷◌, Bytes, leb, if◌then◌else◌, Dict, find,
}

pub record Version : Type 0 where
  pub timestamp : ℕ
  pub value : Option Bytes

unfoldable pub is_tombstone : Version → Bool
is_tombstone v = elim v.value [ none ↦ true | some _ ↦ false ]

pub data LookupState : Type 0 where
  not_found_state value_state tombstone_state : LookupState

pub record LookupResult : Type 0 where
  pub state : LookupState
  pub value : Option Bytes

abbrev pub not_found : LookupResult
not_found = record { state = not_found_state; value = none }

abbrev pub found_value : Bytes → LookupResult
found_value v = record { state = value_state; value = some v }

abbrev pub tombstone : LookupResult
tombstone = record { state = tombstone_state; value = none }

-- `std::map<std::string, std::vector<Version>>`
abbrev pub Entries : Type 0
Entries = Dict (List Version)

-- What a visible version gives: its value, or a tombstone.
unfoldable pub result_of : Option Bytes → LookupResult
result_of none = tombstone
result_of (some v) = found_value v

-- The loop over `rbegin() … rend()`: `versions` is the rest of the reversed vector.
unfoldable pub newest_visible : ℕ → List Version → LookupResult
unfolding result_of
newest_visible read_timestamp [] = not_found
newest_visible read_timestamp (v ∷ versions) =
    let rest = newest_visible read_timestamp versions in
    if leb v.timestamp read_timestamp then result_of v.value else rest

unfoldable pub lookup_versions : ℕ → Option (List Version) → LookupResult
unfolding newest_visible
lookup_versions read_timestamp none = not_found
lookup_versions read_timestamp (some versions) = newest_visible read_timestamp (reverse versions)

-- `lookup_entries` of kv_store.cpp
unfoldable pub lookup_entries : Entries → Bytes → ℕ → LookupResult
unfolding lookup_versions
lookup_entries entries key read_timestamp = lookup_versions read_timestamp (find key entries)
