-- ===== src/MemTable/Mvcc.antt =====
-- Multi-version reads of the MemTable against the history of its writes.
use veri_store.Common.{
  ℕ, ◌<◌, ◌≤◌, ◌≡◌, refl, ◌⊎◌, find, none, some, Option, List, [], ◌∷◌, ◌&&◌, true, false, Bytes,
  bytes_eq, bytes_eq_iff, leb, arith, if◌then◌else◌, IsSorted, All, In, inl, inr, Bool-cases,
  All-map,
}
use veri_store.Lookup.{LookupResult, not_found, result_of, lookup_entries, lookup_versions}
use veri_store.MemTable.{MemTable, empty_table, put, del, get_at}
use veri_store.MemTable.Versions.{lookup_entries-push, push_version-IsSorted}

-- One write: a `put` of a value, or a `del`.
pub record Write : Type 0 where
  pub key : Bytes
  pub timestamp : ℕ
  pub value : Option Bytes

-- A history of writes, the newest first.
abbrev pub History : Type 0
History = List Write

-- The write is of the key, and visible to a read at `t`.
abbrev pub Sees : Bytes → ℕ → Write → Type 0
Sees k t w = (w.key ≡ k) × (w.timestamp ≤ t)

-- Timestamps grow from each write to the next, as `++seq_` makes them.
abbrev pub Ascending : History → Type 0
Ascending [] = Unit
Ascending (w ∷ h) = All (λ u. u.timestamp < w.timestamp) h × Ascending h

-- What a read at `t` must return: nothing exactly if no write of the key is visible, and else what
-- the visible write with the greatest timestamp left, its value or a tombstone.
abbrev pub Answers : Bytes → ℕ → History → LookupResult → Type 0
Answers k t h r =
    ((r ≡ not_found) × All (λ w. ¬ Sees k t w) h)
    ⊎ ((w : Write) × In w h
        × Sees k t w
        × All (λ u. Sees k t u → u.timestamp ≤ w.timestamp) h
        × (r ≡ result_of w.value))

module _ (version_bytes : ℕ) where
  unfoldable pub apply : MemTable → Write → MemTable
  apply m w = elim w.value [
    | none ↦ del version_bytes w.key w.timestamp m
    | some v ↦ put version_bytes w.key w.timestamp v m
  ]

  unfoldable pub replay : History → MemTable
  unfolding apply
  replay [] = empty_table
  replay (w ∷ h) = apply (replay h) w

  pub apply-IsSorted :
      (m : MemTable) (w : Write) → IsSorted m.entries → IsSorted (apply m w).entries
  unfolding apply put del
  apply-IsSorted m w s = ground (
    arith,
    push_version-IsSorted w.key (record { timestamp = w.timestamp; value = w.value }) m.entries s,
  )

  -- A read after a write to a table with ascending keys: the write, if it is of the key and
  -- visible, and else what was there.
  pub get_at-apply :
      (m : MemTable) (w : Write) (k : Bytes) (t : ℕ)
      → IsSorted m.entries
      → get_at k t (apply m w)
        ≡ (if bytes_eq w.key k && leb w.timestamp t then result_of w.value else get_at k t m)
  unfolding apply put del get_at
  get_at-apply m w k t s = ground (
    arith,
    lookup_entries-push w.key (record { timestamp = w.timestamp; value = w.value }) m.entries k t s,
  )

  pub replay-IsSorted : (h : History) → IsSorted (replay h).entries
  unfolding replay
  replay-IsSorted [] = tt
  replay-IsSorted (w ∷ h) = apply-IsSorted (replay h) w (replay-IsSorted h)

  seen :
      (k : Bytes) (t : ℕ) (w : Write) → (bytes_eq w.key k && leb w.timestamp t) ≡ true → Sees k t w
  seen k t w e = ground (arith, bytes_eq_iff w.key k)

  unseen :
      (k : Bytes) (t : ℕ) (w : Write)
      → (bytes_eq w.key k && leb w.timestamp t) ≡ false
      → ¬ Sees k t w
  unseen k t w e s = ground (arith, bytes_eq_iff w.key k)

  get_at-empty : (k : Bytes) (t : ℕ) → get_at k t empty_table ≡ not_found
  unfolding get_at lookup_entries lookup_versions find
  get_at-empty k t = refl

  newest_first :
      (k : Bytes) (t : ℕ) (w : Write) (h : History) {r : LookupResult}
      → All (λ u. u.timestamp < w.timestamp) h
      → Sees k t w
      → r ≡ result_of w.value
      → Answers k t (w ∷ h) r
  newest_first k t w h a s e =
      inr (w, inl refl, s, ((λ _. omega arith), All-map _ _ h (λ u lt _. omega arith) a), e)

  skip_unseen :
      (k : Bytes) (t : ℕ) (w : Write) (h : History) {r : LookupResult}
      → ¬ Sees k t w
      → Answers k t h r
      → Answers k t (w ∷ h) r
  skip_unseen k t w h n (inl (e, none_seen)) = inl (e, (n, none_seen))
  skip_unseen k t w h n (inr (u, i, s, newest, e)) =
      inr (u, inr i, s, ((λ seen_w. absurd (n seen_w)), newest), e)

  -- A read at `t` of a table with the history `h` of ascending writes returns what the newest
  -- visible write of the key left, and `not_found` exactly if there is none.
  pub get_at-replay :
      (h : History) (k : Bytes) (t : ℕ) → Ascending h → Answers k t h (get_at k t (replay h))
  unfolding replay
  get_at-replay [] k t a = inl (get_at-empty k t, tt)
  get_at-replay (w ∷ h) k t (a, rest) = elim (Bool-cases (bytes_eq w.key k && leb w.timestamp t)) [
    | inl e ↦
        rw (get_at-apply (replay h) w k t (replay-IsSorted h), e)
          (newest_first k t w h a (seen k t w e) refl)
    | inr e ↦
        rw (get_at-apply (replay h) w k t (replay-IsSorted h), e)
          (skip_unseen k t w h (unseen k t w e) (get_at-replay h k t rest))
  ]

  -- A snapshot read of a table with a history of writes is stable: a write with a later timestamp
  -- than the read's does not change it.
  pub get_at-later_write :
      (h : History) (w : Write) (k : Bytes) (t : ℕ)
      → t < w.timestamp
      → get_at k t (replay (w ∷ h)) ≡ get_at k t (replay h)
  unfolding replay
  get_at-later_write h w k t lt = ground (arith, get_at-apply (replay h) w k t (replay-IsSorted h))
