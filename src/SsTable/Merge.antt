-- ===== src/SsTable/Merge.antt =====
-- The versions of a key after `Compactor::compact` has sorted them and dropped the duplicates.
use veri_store.Common.{
  ℕ, ◌<◌, ◌≤◌, ◌≡◌, refl, ◌⊎◌, inl, inr, List, [], ◌∷◌, arith, All, All-map, In, ltb, ◌==◌,
  if_intro,
}
use veri_store.Lookup.{Version}
use veri_store.SsTable.RoundTrip.{Ascending}
use veri_store.SsTable.Compactor.{insert_version, sort_versions, unique_from, unique_versions}

-- Timestamps that do not fall.
abbrev Rising : List Version → Type 0
Rising [] = Unit
Rising (v ∷ vs) = All (λ u. v.timestamp ≤ u.timestamp) vs × Rising vs

insert_version-All :
    (P : Version → Type 0) (v : Version) (us : List Version)
    → P v
    → All P us
    → All P (insert_version v us)
unfolding insert_version
insert_version-All P v [] h a = (h, tt)
insert_version-All P v (u ∷ us) h (p, a) =
    if_intro (All P) (ltb u.timestamp v.timestamp) (λ _. (p, insert_version-All P v us h a))
      (λ _. (h, (p, a)))

insert_version-Rising : (v : Version) (us : List Version) → Rising us → Rising (insert_version v us)
unfolding insert_version
insert_version-Rising v [] a = (tt, tt)
insert_version-Rising v (u ∷ us) (p, a) =
    if_intro Rising (ltb u.timestamp v.timestamp)
      (λ e. (
        insert_version-All (λ z. u.timestamp ≤ z.timestamp) v us (ground arith) p,
        insert_version-Rising v us a,
      ))
      (λ e.
        let le : v.timestamp ≤ u.timestamp = ground arith in
        (
          (
            le,
            All-map (λ z. u.timestamp ≤ z.timestamp) (λ z. v.timestamp ≤ z.timestamp) us
                (λ z q. omega arith) p,
          ),
          (p, a),
        ))

sort_versions-All : (P : Version → Type 0) (vs : List Version) → All P vs → All P (sort_versions vs)
unfolding sort_versions
sort_versions-All P [] a = tt
sort_versions-All P (v ∷ vs) (p, a) =
    insert_version-All P v (sort_versions vs) p (sort_versions-All P vs a)

sort_versions-Rising : (vs : List Version) → Rising (sort_versions vs)
unfolding sort_versions
sort_versions-Rising [] = tt
sort_versions-Rising (v ∷ vs) = insert_version-Rising v (sort_versions vs) (sort_versions-Rising vs)

unique_from-All :
    (P : Version → Type 0) (v : Version) (us : List Version)
    → P v
    → All P us
    → All P (unique_from v us)
unfolding unique_from
unique_from-All P v [] h a = (h, tt)
unique_from-All P v (u ∷ us) h (p, a) =
    if_intro (All P) (v.timestamp == u.timestamp) (λ _. unique_from-All P v us h a)
      (λ _. (h, unique_from-All P u us p a))

unique_from-Ascending :
    (v : Version) (us : List Version)
    → All (λ u. v.timestamp ≤ u.timestamp) us
    → Rising us
    → Ascending (unique_from v us)
unfolding unique_from
unique_from-Ascending v [] p a = (tt, tt)
unique_from-Ascending v (u ∷ us) (le, p) (q, a) =
    if_intro Ascending (v.timestamp == u.timestamp) (λ _. unique_from-Ascending v us p a)
      λ ne.
        let lt : v.timestamp < u.timestamp = ground arith in
        (
          unique_from-All (λ z. v.timestamp < z.timestamp) u us lt
              (All-map _ _ us (λ z r. omega arith) q),
          unique_from-Ascending u us q a,
        )

-- A timestamp that a version of the list has.
abbrev pub Has : ℕ → List Version → Type 0
Has t [] = ⊥
Has t (v ∷ vs) = (v.timestamp ≡ t) ⊎ Has t vs

insert_version-Has :
    (t : ℕ) (v : Version) (us : List Version) → Has t (v ∷ us) → Has t (insert_version v us)
unfolding insert_version
insert_version-Has t v [] h = h
insert_version-Has t v (u ∷ us) h = ground (arith, insert_version-Has t v us)

sort_versions-Has : (t : ℕ) (vs : List Version) → Has t vs → Has t (sort_versions vs)
unfolding sort_versions
sort_versions-Has t [] h = h
sort_versions-Has t (v ∷ vs) (inl e) = insert_version-Has t v (sort_versions vs) (inl e)
sort_versions-Has t (v ∷ vs) (inr h) =
    insert_version-Has t v (sort_versions vs) (inr (sort_versions-Has t vs h))

unique_from-Has :
    (t : ℕ) (v : Version) (us : List Version) → Has t (v ∷ us) → Has t (unique_from v us)
unfolding unique_from
unique_from-Has t v [] h = h
unique_from-Has t v (u ∷ us) h = ground (arith, unique_from-Has t v us, unique_from-Has t u us)

unique_versions-Has : (t : ℕ) (vs : List Version) → Has t vs → Has t (unique_versions vs)
unfolding unique_versions
unique_versions-Has t [] h = h
unique_versions-Has t (v ∷ vs) h = unique_from-Has t v vs h

unique_versions-Ascending : (vs : List Version) → Rising vs → Ascending (unique_versions vs)
unfolding unique_versions
unique_versions-Ascending [] r = tt
unique_versions-Ascending (v ∷ vs) (p, r) = unique_from-Ascending v vs p r

unique_versions-All :
    (P : Version → Type 0) (vs : List Version) → All P vs → All P (unique_versions vs)
unfolding unique_versions
unique_versions-All P [] a = tt
unique_versions-All P (v ∷ vs) (p, a) = unique_from-All P v vs p a

In-self : (vs : List Version) → All (λ v. In v vs) vs
In-self [] = tt
In-self (v ∷ vs) =
    (inl refl, All-map (λ u. In u vs) (λ u. In u (v ∷ vs)) vs (λ u i. inr i) (In-self vs))

-- What the compactor makes of the versions of a key, whatever they were: timestamps that grow
-- strictly, versions that were there, and a version for every timestamp that was there.
pub cleaned-Ascending :
    (vs : List Version)
    → Ascending (unique_versions (sort_versions vs))
      × All (λ v. In v vs) (unique_versions (sort_versions vs))
      × ((t : ℕ) → Has t vs → Has t (unique_versions (sort_versions vs)))
cleaned-Ascending vs = (
  unique_versions-Ascending (sort_versions vs) (sort_versions-Rising vs),
  unique_versions-All (λ v. In v vs) (sort_versions vs)
      (sort_versions-All (λ v. In v vs) vs (In-self vs)),
  λ t h. unique_versions-Has t (sort_versions vs) (sort_versions-Has t vs h),
)
