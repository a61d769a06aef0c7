-- ===== src/ObjectStore/Listed.antt =====
-- What `ListObjects` lists.
use mathlib.Core.Path.{subst}
use veri_store.Common.{
  ◌≡◌, ◌≢◌, ◌↔◌, ◌⊎◌, inl, inr, refl, sym, ap, ◌∙◌, Bool, true, false, none, List, [], ◌∷◌, ◌++◌,
  Bytes, codes, length, drop, ltb, if◌then◌else◌, if_intro, arith, In, Bool-cases, append_assoc,
  length-append, drop-append_left,
}
use veri_store.ObjectStore.Types.{ObjectMetadata, ObjectListEntry}
use veri_store.ObjectStore.KeyCodec.{colon, bucket_index_key}
use veri_store.ObjectStore.KvApi.{KvApi, Laws, StartsWith}
use veri_store.ObjectStore.Objects.{
  is_deleted, Fetched, absent, unreadable, found, bucket_exists, fetch,
}
use veri_store.ObjectStore.Listing.{list_entry, add_entry, list_entries, list_objects}

abbrev base_of : Bytes → Bytes
base_of b = codes "bucketidx:" ++ (b ++ colon ∷ [])

index_base : (b key : Bytes) → bucket_index_key b key ≡ base_of b ++ key
unfolding bucket_index_key
index_base b key = ap (λ x. codes "bucketidx:" ++ x) (sym (append_assoc b (colon ∷ []) key))

-- What begins with `x ++ p` is `x` before what begins with `p`.
split_prefix :
    (x p k : Bytes) → StartsWith (x ++ p) k → (key : Bytes) × (k ≡ x ++ key) × StartsWith p key
split_prefix [] p k h = (k, refl, h)
split_prefix (c ∷ x) p [] h = cc
split_prefix (c ∷ x) p (d ∷ k) h = let (key, e, s) = split_prefix x p k cc in (key, cc, s)

join_prefix : (x p key : Bytes) → StartsWith p key → StartsWith (x ++ p) (x ++ key)
join_prefix [] p key h = h
join_prefix (c ∷ x) p key h = ap (λ ys. c ∷ ys) (join_prefix x p key h)

-- A key of the index that begins with the scan's prefix is that of an object key with the prefix.
unscan :
    (b p k : Bytes)
    → StartsWith (bucket_index_key b p) k
    → (key : Bytes) × (bucket_index_key b key ≡ k) × StartsWith p key
unscan b p k h =
    let (key, e, s) =
      split_prefix (base_of b) p k (subst (λ x. StartsWith x k) (index_base b p) h) in
    (key, index_base b key ∙ sym e, s)

scan_key :
    (b p key : Bytes)
    → StartsWith p key
    → StartsWith (bucket_index_key b p) (bucket_index_key b key)
scan_key b p key h = rw (index_base b p) (rw (index_base b key) (join_prefix (base_of b) p key h))

drop-index : (b key : Bytes) → drop (length (base_of b)) (bucket_index_key b key) ≡ key
drop-index b key = rw (index_base b key) (drop-append_left (base_of b) key)

index-long : (b key : Bytes) → ltb (length (bucket_index_key b key)) (length (base_of b)) ≡ false
index-long b key = rw (index_base b key) (ground (arith, length-append (base_of b) key))

add_entry-In :
    (f : Fetched) (rest : List ObjectListEntry) (e : ObjectListEntry)
    → In e (add_entry f rest)
    → ((m : ObjectMetadata) × (f ≡ found m) × (is_deleted m.state ≡ false) × (e ≡ list_entry m))
      ⊎ In e rest
add_entry-In absent rest e i = inr i
add_entry-In unreadable rest e i = inr i
add_entry-In (found m) rest e i = elim (Bool-cases (is_deleted m.state)) [
  | inl d ↦ inr (subst (λ (b : Bool). In e (if b then rest else list_entry m ∷ rest)) d i)
  | inr d ↦ elim (subst (λ (b : Bool). In e (if b then rest else list_entry m ∷ rest)) d i) [
    | inl same ↦ inl (m, refl, d, same)
    | inr old ↦ inr old
  ]
]

add_entry-old :
    (f : Fetched) (rest : List ObjectListEntry) (e : ObjectListEntry)
    → In e rest
    → In e (add_entry f rest)
add_entry-old absent rest e i = i
add_entry-old unreadable rest e i = i
add_entry-old (found m) rest e i = if_intro (In e) (is_deleted m.state) (λ _. i) (λ _. inr i)

add_entry-new :
    (f : Fetched) (rest : List ObjectListEntry) (m : ObjectMetadata)
    → f ≡ found m
    → is_deleted m.state ≡ false
    → In (list_entry m) (add_entry f rest)
add_entry-new f rest m e d = rw e (rw d (inl refl))

module _ {S : Type 0} (api : KvApi S) where
  -- The entry is that of an object of the bucket: its key begins with the prefix and stands in the
  -- index, and its metadata are there and not deleted.
  abbrev pub Listed : Bytes → Bytes → S → ObjectListEntry → Type 0
  Listed b p s e =
      (key : Bytes) × (m : ObjectMetadata) × StartsWith p key
      × (api.get (bucket_index_key b key) s ≢ none)
      × (fetch api b key s ≡ found m)
      × (is_deleted m.state ≡ false)
      × (e ≡ list_entry m)

  -- One round of the loop: an entry of the key's metadata, or of those after it.
  list_entries-step :
      (b k : Bytes) (ks : List Bytes) (s : S) (e : ObjectListEntry)
      → In e (list_entries api b (k ∷ ks) s)
      → In e (add_entry (fetch api b (drop (length (base_of b)) k) s) (list_entries api b ks s))
        ⊎ In e (list_entries api b ks s)
  unfolding list_entries
  list_entries-step b k ks s e =
      if_intro
        (λ xs.
          In e xs
          → In e (add_entry (fetch api b (drop (length (base_of b)) k) s) (list_entries api b ks s))
            ⊎ In e (list_entries api b ks s))
        (ltb (length k) (length (base_of b))) (λ _ i. inr i) (λ _ i. inl i)

  list_entries_sound :
      (b : Bytes) (ks : List Bytes) (s : S) (e : ObjectListEntry)
      → In e (list_entries api b ks s)
      → (k : Bytes) × (m : ObjectMetadata) × In k ks
        × (fetch api b (drop (length (base_of b)) k) s ≡ found m)
        × (is_deleted m.state ≡ false)
        × (e ≡ list_entry m)
  unfolding list_entries
  list_entries_sound b [] s e i = absurd i
  list_entries_sound b (k ∷ ks) s e i =
      let later : In e (list_entries api b ks s) → _ = λ j.
        let (k', m, at, f, d, same) = list_entries_sound b ks s e j in
        (k', m, inr at, f, d, same) in
      elim (list_entries-step b k ks s e i) [
        | inr j ↦ later j
        | inl j ↦
            elim (add_entry-In (fetch api b (drop (length (base_of b)) k) s)
              (list_entries api b ks s) e j) [
                | inl (m, f, d, same) ↦ (k, m, inl refl, f, d, same)
                | inr old ↦ later old
              ]
      ]

  list_entries_complete :
      (b key : Bytes) (ks : List Bytes) (m : ObjectMetadata) (s : S)
      → In (bucket_index_key b key) ks
      → fetch api b key s ≡ found m
      → is_deleted m.state ≡ false
      → In (list_entry m) (list_entries api b ks s)
  unfolding list_entries
  list_entries_complete b key [] m s i f d = absurd i
  list_entries_complete b key (k ∷ ks) m s (inl e) f d =
      let here = fetch api b (drop (length (base_of b)) k) s in
      let long : ltb (length k) (length (base_of b)) ≡ false =
        subst (λ x. ltb (length x) (length (base_of b)) ≡ false) e (index-long b key) in
      let read : here ≡ found m =
        subst (λ x. fetch api b (drop (length (base_of b)) x) s ≡ found m) e
          (rw (drop-index b key) f) in
      rw long (add_entry-new here (list_entries api b ks s) m read d)
  list_entries_complete b key (k ∷ ks) m s (inr i) f d =
      let rest = list_entries_complete b key ks m s i f d in
      if_intro (In (list_entry m)) (ltb (length k) (length (base_of b))) (λ _. rest)
        (λ _.
          add_entry-old (fetch api b (drop (length (base_of b)) k) s) (list_entries api b ks s)
            (list_entry m) rest)

  listing : Bytes → Bytes → S → List ObjectListEntry
  listing b p s = list_entries api b (api.list_keys_with_prefix (bucket_index_key b p) s) s

  list_objects-listing :
      (b p : Bytes) (s : S)
      → b ≢ []
      → bucket_exists api b s ≡ true
      → (list_objects api b p s).objects ≡ listing b p s
  unfolding list_objects listing
  list_objects-listing [] p s nb ex = absurd (nb refl)
  list_objects-listing (c ∷ b) p s nb ex = rw ex refl

  module _ (IsReady : S → Type 0) (laws : Laws api IsReady) where
    listing_iff :
        (b p : Bytes) (s : S) (e : ObjectListEntry) → In e (listing b p s) ↔ Listed b p s e
    unfolding listing
    listing_iff b p s e = (
      λ i.
          let (k, m, at, f, d, same) =
            list_entries_sound b (api.list_keys_with_prefix (bucket_index_key b p) s) s e i in
          let (starts, there) = (laws.list-iff (bucket_index_key b p) k s).0 at in
          let (key, is, sp) = unscan b p k starts in
          (
            key,
            m,
            sp,
            subst (λ x. api.get x s ≢ none) (sym is) there,
            subst (λ x. fetch api b x s ≡ found m) (drop-index b key)
                (subst (λ x. fetch api b (drop (length (base_of b)) x) s ≡ found m) (sym is) f),
            d,
            same,
          ),
      λ (key, m, sp, there, f, d, same).
          subst
            (λ x. In x (list_entries api b (api.list_keys_with_prefix (bucket_index_key b p) s) s))
            (sym same)
            (list_entries_complete b key (api.list_keys_with_prefix (bucket_index_key b p) s) m s
              ((laws.list-iff (bucket_index_key b p) (bucket_index_key b key) s).1
                (scan_key b p key sp, there))
              f d),
    )

    -- A listing of a bucket that is there holds exactly the entries of its objects whose key begins
    -- with the prefix, that stand in the index and whose metadata are readable and not deleted.
    pub list_objects_iff :
        (b p : Bytes) (s : S) (e : ObjectListEntry)
        → b ≢ []
        → bucket_exists api b s ≡ true
        → In e (list_objects api b p s).objects ↔ Listed b p s e
    list_objects_iff b p s e nb ex = rw (list_objects-listing b p s nb ex) (listing_iff b p s e)
