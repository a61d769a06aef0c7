-- ===== src/MemTable/Versions.antt =====
-- How one pushed version changes what a lookup sees.
use mathlib.Core.List.{reverse, reverse-append}
use veri_store.Common.{
  ℕ, ◌≡◌, refl, none, some, Option, List, [], ◌∷◌, ◌++◌, ◌&&◌, Bytes, bytes_eq, leb, arith,
  if◌then◌else◌, find, bytes_eq_iff, IsSorted, find-modify, modify-IsSorted, default_to,
}
use veri_store.Lookup.{Version, Entries, result_of, newest_visible, lookup_versions, lookup_entries}
use veri_store.MemTable.{push_version}

newest_visible-snoc :
    (t : ℕ) (vs : List Version) (v : Version)
    → newest_visible t (reverse (vs ++ v ∷ []))
      ≡ (if leb v.timestamp t then result_of v.value else newest_visible t (reverse vs))
newest_visible-snoc t vs v = rw (reverse-append vs (v ∷ [])) (unfold newest_visible in refl)

lookup_versions-push :
    (t : ℕ) (o : Option (List Version)) (v : Version)
    → lookup_versions t (some (default_to [] o ++ v ∷ []))
      ≡ (if leb v.timestamp t then result_of v.value else lookup_versions t o)
unfolding lookup_versions
lookup_versions-push t none v = unfold newest_visible in refl
lookup_versions-push t (some vs) v = newest_visible-snoc t vs v

-- A pushed version that is visible to the read hides all that was there of its key.
pub lookup_entries-push :
    (key : Bytes) (v : Version) (m : Entries) (k : Bytes) (t : ℕ)
    → IsSorted m
    → lookup_entries (push_version key v m) k t
      ≡ (if bytes_eq key k && leb v.timestamp t then result_of v.value else lookup_entries m k t)
unfolding lookup_entries push_version
lookup_entries-push key v m k t s =
    rw (find-modify key k [] (λ vs. vs ++ v ∷ []) m s)
      (ground (arith, bytes_eq_iff key k, lookup_versions-push t (find key m) v))

pub push_version-IsSorted :
    (key : Bytes) (v : Version) (m : Entries) → IsSorted m → IsSorted (push_version key v m)
unfolding push_version
push_version-IsSorted key v m s = modify-IsSorted key [] (λ vs. vs ++ v ∷ []) m s
