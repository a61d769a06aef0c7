-- ===== src/MemTable/Size.antt =====
-- The running size of the MemTable against the records that it holds.
use veri_store.Common.{
  ℕ, ◌+◌, ◌%◌, ◌≡◌, refl, none, some, List, [], ◌∷◌, ◌++◌, Bytes, length, arith, modify, IsSorted,
  bytes_eq_iff,
}
use veri_store.Lookup.{Version, Entries}
use veri_store.MemTable.{MemTable, empty_table, put, del, push_version, sizeof_timestamp, size_mod}
use veri_store.MemTable.Versions.{push_version-IsSorted}

module _ (version_bytes : ℕ) where
  -- The bytes that the source charges for one version.
  charge : Bytes → Version → ℕ
  charge k v =
      length k + (elim v.value [ none ↦ 0 | some s ↦ length s ]) + sizeof_timestamp + version_bytes

  charge_all : Bytes → List Version → ℕ
  charge_all k [] = 0
  charge_all k (v ∷ vs) = charge k v + charge_all k vs

  -- The charge for every version that the entries hold.
  pub total_charge : Entries → ℕ
  total_charge [] = 0
  total_charge ((k, vs) ∷ m) = charge_all k vs + total_charge m

  -- The keys ascend, and the running size is the charge for all that the table holds.
  pub record IsValid (m : MemTable) : Type 0 where
    pub sorted : IsSorted m.entries
    pub sized : m.approximate_size_bytes ≡ total_charge m.entries % size_mod

  charge_all-append :
      (k : Bytes) (vs : List Version) (v : Version)
      → charge_all k (vs ++ v ∷ []) ≡ charge_all k vs + charge k v
  unfolding charge_all
  charge_all-append k [] v = omega arith
  charge_all-append k (u ∷ vs) v = omega (arith, charge_all-append k vs v)

  total_charge-push :
      (k : Bytes) (v : Version) (m : Entries)
      → total_charge (push_version k v m) ≡ total_charge m + charge k v
  unfolding total_charge push_version modify charge_all
  total_charge-push k v [] = omega arith
  total_charge-push k v ((j, vs) ∷ m) =
      ground (arith, total_charge-push k v m, charge_all-append j vs v, bytes_eq_iff j k)

  pub empty-IsValid : IsValid empty_table
  unfolding total_charge
  empty-IsValid = record { sorted = tt; sized = refl }

  -- A put keeps a table valid: the keys ascend, and the running size is the charge for all
  -- versions, modulo 2^64.
  pub put-IsValid :
      (k : Bytes) (t : ℕ) (s : Bytes) (m : MemTable)
      → IsValid m
      → IsValid (put version_bytes k t s m)
  unfolding put charge
  put-IsValid k t s m h = record {
    sorted = push_version-IsSorted k _ m.entries h.sorted;
    sized =
        omega (
          arith,
          h.sized,
          total_charge-push k (record { timestamp = t; value = some s }) m.entries,
        );
  }

  -- A del keeps a table valid: the keys ascend, and the running size is the charge for all
  -- versions, modulo 2^64.
  pub del-IsValid :
      (k : Bytes) (t : ℕ) (m : MemTable) → IsValid m → IsValid (del version_bytes k t m)
  unfolding del charge
  del-IsValid k t m h = record {
    sorted = push_version-IsSorted k _ m.entries h.sorted;
    sized =
        omega
          (arith, h.sized, total_charge-push k (record { timestamp = t; value = none }) m.entries);
  }
