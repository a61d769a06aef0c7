-- ===== src/Lookup/Versions.antt =====
-- Lookups in concatenated version vectors.
use mathlib.Core.List.{reverse, reverse-append}
use veri_store.Common.{
  ℕ, ◌≡◌, refl, sym, ap, ◌∙◌, Option, none, some, List, [], ◌∷◌, ◌++◌, Bytes, leb, if◌then◌else◌,
  arith, find, default_to,
}
use veri_store.Lookup.{
  Version, Entries, LookupResult, not_found_state, value_state, tombstone_state, not_found,
  result_of, newest_visible, lookup_versions, lookup_entries,
}

-- The first result, unless it says that nothing was found.
unfoldable pub or_else : LookupResult → LookupResult → LookupResult
or_else r s = elim r.state [ not_found_state ↦ s | value_state ↦ r | tombstone_state ↦ r ]

pub result_of-found : (o : Option Bytes) (s : LookupResult) → or_else (result_of o) s ≡ result_of o
unfolding or_else result_of
result_of-found none s = refl
result_of-found (some v) s = refl

pub or_else-not_found : (s : LookupResult) → or_else not_found s ≡ s
unfolding or_else
or_else-not_found s = refl

pub newest_visible-append :
    (t : ℕ) (xs ys : List Version)
    → newest_visible t (xs ++ ys) ≡ or_else (newest_visible t xs) (newest_visible t ys)
unfolding newest_visible
newest_visible-append t [] ys = sym (or_else-not_found (newest_visible t ys))
newest_visible-append t (v ∷ xs) ys =
    ground (arith, newest_visible-append t xs ys, result_of-found v.value (newest_visible t ys))

-- The versions of a key; none, if it is missing.
abbrev pub versions_of : Bytes → Entries → List Version
versions_of k m = default_to [] (find k m)

pub lookup_entries_lem :
    (m : Entries) (k : Bytes) (t : ℕ)
    → lookup_entries m k t ≡ newest_visible t (reverse (versions_of k m))
unfolding lookup_entries lookup_versions
lookup_entries_lem m k t = ground arith

-- The later versions are looked at first.
pub newest_visible-reverse :
    (t : ℕ) (xs ys : List Version)
    → newest_visible t (reverse (xs ++ ys))
      ≡ or_else (newest_visible t (reverse ys)) (newest_visible t (reverse xs))
newest_visible-reverse t xs ys =
    ap (newest_visible t) (reverse-append xs ys) ∙ newest_visible-append t (reverse ys) (reverse xs)

pub or_else_assoc : (a b c : LookupResult) → or_else (or_else a b) c ≡ or_else a (or_else b c)
unfolding or_else
or_else_assoc a b c = ground arith

pub newest_visible-one :
    (t : ℕ) (v : Version)
    → newest_visible t (reverse (v ∷ []))
      ≡ (if leb v.timestamp t then result_of v.value else not_found)
unfolding newest_visible
newest_visible-one t v = refl
