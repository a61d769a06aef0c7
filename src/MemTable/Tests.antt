-- ===== src/MemTable/Tests.antt =====
-- The MemTable on a short history, and the theorems about it applied there.
use veri_store.Common.{
  ◌≡◌, refl, none, some, [], ◌∷◌, codes, arith, bytes_eq, bytes_lt, find, modify,
}
use veri_store.Lookup.{found_value, tombstone, lookup_entries}
use veri_store.MemTable.{push_version, put, del, get_at}
use veri_store.MemTable.Mvcc.{History, Answers, Ascending, replay, get_at-replay}

abbrev writes : History
writes =
    record { key = codes "a"; timestamp = 3; value = none }
    ∷ record { key = codes "b"; timestamp = 2; value = some (codes "y") }
    ∷ record { key = codes "a"; timestamp = 1; value = some (codes "x") }
    ∷ []

writes-Ascending : Ascending writes
writes-Ascending = ((omega arith, (omega arith, tt)), ((omega arith, tt), (tt, tt)))

old_read : get_at (codes "a") 2 (replay 32 writes) ≡ found_value (codes "x")
unfolding get_at replay lookup_entries find del push_version modify put bytes_eq bytes_lt
old_read = refl

new_read : get_at (codes "a") 3 (replay 32 writes) ≡ tombstone
unfolding get_at replay lookup_entries find del push_version modify put bytes_eq bytes_lt
new_read = refl

get_at-replay_example : Answers (codes "a") 2 writes (get_at (codes "a") 2 (replay 32 writes))
get_at-replay_example = get_at-replay 32 writes (codes "a") 2 writes-Ascending
