-- ===== src/ObjectStore/Collect.antt =====
-- `GarbageCollectChunks` keeps the chunks of committed objects, and no others.
use mathlib.Core.Path.{subst}
use veri_store.Common.{
  ℕ, ◌+◌, ◌-◌, ◌≡◌, ◌≢◌, refl, sym, ap, ◌∙◌, Bool, true, false, ◌&&◌, none, some, List, [], ◌∷◌,
  ◌++◌, Bytes, codes, length, if◌then◌else◌, if_intro, arith, leb, bytes_eq_iff, Bool-cases,
  Option-cases, inl, inr, In, ◌↔◌, ◌⊎◌, take-append_left,
}
use veri_store.Text.{is_digit, print_uint}
use veri_store.Text.Numbers.{Without, print_uint-Without}
use veri_store.ObjectStore.Types.{pending, committed, deleted, other, ObjectState, ObjectMetadata}
use veri_store.ObjectStore.KeyCodec.{colon, object_meta_key, chunk_key}
use veri_store.ObjectStore.KvApi.{KvApi, Laws, StartsWith}
use veri_store.ObjectStore.Objects.{Fetched, absent, unreadable, found, fetched, fetch, get_object}
use veri_store.ObjectStore.Listing.{
  last_colon_at, member, is_committed, reach, chunk_prefix, id_between, chunk_object_id, is_garbage,
  reachable_ids, sweep, garbage_collect_chunks,
}
use veri_store.ObjectStore.Isolation.{get_object-same}

no_colon : (d : Bytes) → Without colon d → last_colon_at d ≡ none
unfolding last_colon_at
no_colon [] a = refl
no_colon (c ∷ d) (h, a) = rw (no_colon d a, last_colon_at) (ground arith)

last_colon_at-append :
    (a d : Bytes) → Without colon d → last_colon_at (a ++ colon ∷ d) ≡ some (length a)
unfolding last_colon_at
last_colon_at-append [] d h = rw (no_colon d h, last_colon_at) refl
last_colon_at-append (c ∷ a) d h = rw (last_colon_at-append a d h, last_colon_at) (ground arith)

digits_colon : (i : ℕ) → Without colon (print_uint i)
digits_colon i = print_uint-Without colon i (unfold is_digit in refl)

-- The collector reads the object id out of a chunk's key, if the id is not empty.
chunk_object_id-chunk_key :
    (id : Bytes) (i : ℕ) → id ≢ [] → chunk_object_id (chunk_key id i) ≡ some id
unfolding chunk_object_id chunk_key
chunk_object_id-chunk_key [] i ne = absurd (ne refl)
chunk_object_id-chunk_key (x ∷ id) i ne =
    let size : length (codes "objchunk:" ++ (x ∷ id)) - 9 ≡ length (x ∷ id) = omega arith in
    let far : leb (length (codes "objchunk:" ++ (x ∷ id))) 9 ≡ false = ground arith in
    ap (id_between (chunk_key (x ∷ id) i))
      (last_colon_at-append (codes "objchunk:" ++ (x ∷ id)) (print_uint i) (digits_colon i))
    ∙ rw far (rw size (ap (λ y. some (x ∷ y)) (take-append_left id (colon ∷ print_uint i))))

chunk_object_id-nil : (i : ℕ) → chunk_object_id (chunk_key [] i) ≡ none
unfolding chunk_object_id chunk_key
chunk_object_id-nil i =
    ap (id_between (chunk_key [] i))
      (last_colon_at-append (codes "objchunk:") (print_uint i) (digits_colon i))

member_iff : (k : Bytes) (ks : List Bytes) → (member k ks ≡ true) ↔ In k ks
unfolding member
member_iff k [] = ground arith
member_iff k (j ∷ js) = ground (arith, member_iff k js, bytes_eq_iff j k)

is_committed-committed : (st : ObjectState) → is_committed st ≡ true → st ≡ committed
is_committed-committed committed e = refl
is_committed-committed pending e = cc
is_committed-committed deleted e = cc
is_committed-committed (other n) e = cc

reach-In : (f : Fetched) (ids : List Bytes) (id : Bytes) → In id ids → In id (reach f ids)
reach-In absent ids id i = i
reach-In unreadable ids id i = i
reach-In (found m) ids id i = if_intro (In id) (is_committed m.state) (λ _. inr i) (λ _. i)

reach-new :
    (f : Fetched) (ids : List Bytes) (m : ObjectMetadata)
    → f ≡ found m
    → m.state ≡ committed
    → In m.object_id (reach f ids)
reach-new f ids m e c = rw e (rw c (inl refl))

reach-only :
    (f : Fetched) (ids : List Bytes) (id : Bytes)
    → In id (reach f ids)
    → ((m : ObjectMetadata) × (f ≡ found m) × (m.state ≡ committed) × (m.object_id ≡ id))
      ⊎ In id ids
reach-only absent ids id i = inr i
reach-only unreadable ids id i = inr i
reach-only (found m) ids id i = elim (Bool-cases (is_committed m.state)) [
  | inl e ↦ elim (subst (λ (b : Bool). In id (if b then m.object_id ∷ ids else ids)) e i) [
    | inl same ↦ inl (m, refl, is_committed-committed m.state e, sym same)
    | inr old ↦ inr old
  ]
  | inr e ↦ inr (subst (λ (b : Bool). In id (if b then m.object_id ∷ ids else ids)) e i)
]

absent-ne : (m : ObjectMetadata) → absent ≢ found m
absent-ne m e = cc

state_in : Fetched → ObjectState
state_in (found m) = m.state
state_in absent = pending
state_in unreadable = pending

kept_id :
    (ids : List Bytes) (id : Bytes) (i : ℕ)
    → In id ids
    → is_garbage ids (chunk_object_id (chunk_key id i)) ≡ false
kept_id ids [] i at = rw (chunk_object_id-nil i) refl
kept_id ids (x ∷ id) i at =
    rw (chunk_object_id-chunk_key (x ∷ id) i (λ e. cc)) (rw ((member_iff (x ∷ id) ids).1 at) refl)

chunk_key-StartsWith : (id : Bytes) (i : ℕ) → StartsWith chunk_prefix (chunk_key id i)
unfolding chunk_key
chunk_key-StartsWith id i = refl

module _ {S : Type 0} (api : KvApi S) where
  -- The object ids of committed metadata are reachable, and no others.
  reachable_ids-has :
      (key : Bytes) (ks : List Bytes) (m : ObjectMetadata) (s : S)
      → In key ks
      → fetched (api.get key s) ≡ found m
      → m.state ≡ committed
      → In m.object_id (reachable_ids api ks s)
  unfolding reachable_ids
  reachable_ids-has key [] m s i f c = absurd i
  reachable_ids-has key (k ∷ ks) m s (inl e) f c =
      reach-new (fetched (api.get k s)) (reachable_ids api ks s) m (rw (sym e) f) c
  reachable_ids-has key (k ∷ ks) m s (inr i) f c =
      reach-In (fetched (api.get k s)) (reachable_ids api ks s) m.object_id
        (reachable_ids-has key ks m s i f c)

  reachable_ids-only :
      (id : Bytes) (ks : List Bytes) (s : S)
      → In id (reachable_ids api ks s)
      → (key : Bytes) × (m : ObjectMetadata) × In key ks
        × (fetched (api.get key s) ≡ found m)
        × (m.state ≡ committed)
        × (m.object_id ≡ id)
  unfolding reachable_ids
  reachable_ids-only id [] s i = absurd i
  reachable_ids-only id (k ∷ ks) s i =
      elim (reach-only (fetched (api.get k s)) (reachable_ids api ks s) id i) [
        | inl (m, f, c, e) ↦ (k, m, inl refl, f, c, e)
        | inr j ↦
            let (key, m, at, f, c, e) = reachable_ids-only id ks s j in (key, m, inr at, f, c, e)
      ]

  module _ (IsReady : S → Type 0) (laws : Laws api IsReady) where
    unreachable :
        (id : Bytes) (s : S)
        → ((key : Bytes) (m : ObjectMetadata)
            → StartsWith (codes "objmeta:") key
            → fetched (api.get key s) ≡ found m
            → m.state ≡ committed
            → m.object_id ≢ id)
        → member id (reachable_ids api (api.list_keys_with_prefix (codes "objmeta:") s) s) ≡ false
    unreachable id s none_has =
        let ids = reachable_ids api (api.list_keys_with_prefix (codes "objmeta:") s) s in
        elim (Bool-cases (member id ids)) [
          | inl e ↦
              let (key, m, at, f, c, same) = reachable_ids-only id _ s ((member_iff id ids).0 e) in
              absurd (none_has key m ((laws.list-iff (codes "objmeta:") key s).0 at).0 f c same)
          | inr e ↦ e
        ]

    get-sweep :
        (reachable ks : List Bytes) (n : ℕ) (j : Bytes) (s : S)
        → IsReady s
        → api.get j (sweep api reachable ks n s).0
          ≡ (if member j ks && is_garbage reachable (chunk_object_id j) then none else api.get j s)
    unfolding sweep member
    get-sweep reachable [] n j s r = refl
    get-sweep reachable (k ∷ ks) n j s r =
        if_intro
          (λ (x : S × ℕ). api.get j x.0 ≡ (
            if member j (k ∷ ks) && is_garbage reachable (chunk_object_id j)
            then none
            else api.get j s))
          (is_garbage reachable (chunk_object_id k))
          (λ g. ground (
            arith,
            get-sweep reachable ks (if (api.del k s).1 then n + 1 else n) j (api.del k s).0
                (laws.del-IsReady k s r),
            laws.get-del k j s r,
            bytes_eq_iff k j,
            λ (e : k ≡ j). ap (λ x. is_garbage reachable (chunk_object_id x)) e,
          ))
          (λ g. ground (
            arith,
            get-sweep reachable ks n j s r,
            bytes_eq_iff k j,
            λ (e : k ≡ j). ap (λ x. is_garbage reachable (chunk_object_id x)) e,
          ))

    get-garbage_collect :
        (j : Bytes) (s : S)
        → IsReady s
        → api.get j (garbage_collect_chunks api s).0 ≡ (
            if member j (api.list_keys_with_prefix chunk_prefix s)
              && is_garbage
                  (reachable_ids api (api.list_keys_with_prefix (codes "objmeta:") s) s)
                  (chunk_object_id j)
            then none
            else api.get j s)
    unfolding garbage_collect_chunks
    get-garbage_collect j s r =
        let ids = reachable_ids api (api.list_keys_with_prefix (codes "objmeta:") s) s in
        laws.get-flush_wal j (sweep api ids (api.list_keys_with_prefix chunk_prefix s) 0 s).0
        ∙ get-sweep ids (api.list_keys_with_prefix chunk_prefix s) 0 j s r

    meta_listed :
        (b k : Bytes) (m : ObjectMetadata) (s : S)
        → fetch api b k s ≡ found m
        → In (object_meta_key b k) (api.list_keys_with_prefix (codes "objmeta:") s)
    unfolding fetch object_meta_key
    meta_listed b k m s f =
        (laws.list-iff (codes "objmeta:") (object_meta_key b k) s).1
          (refl, λ e. absurd (absent-ne m (sym (ap fetched e) ∙ f)))

    meta_unlisted :
        (b k : Bytes) (s : S)
        → member (object_meta_key b k) (api.list_keys_with_prefix chunk_prefix s) ≡ false
    unfolding object_meta_key
    meta_unlisted b k s =
        elim (Bool-cases
          (member (object_meta_key b k) (api.list_keys_with_prefix chunk_prefix s))) [
            | inl e ↦
                let starts : StartsWith chunk_prefix (object_meta_key b k) =
                  ((laws.list-iff chunk_prefix (object_meta_key b k) s).0
                    ((member_iff (object_meta_key b k) _).0 e)).0 in
                absurd (ground (arith, starts))
            | inr e ↦ e
          ]

    meta_kept :
        (b k : Bytes) (s : S)
        → IsReady s
        → api.get (object_meta_key b k) (garbage_collect_chunks api s).0
          ≡ api.get (object_meta_key b k) s
    meta_kept b k s r =
        get-garbage_collect (object_meta_key b k) s r ∙ rw (meta_unlisted b k s) refl

    chunk_kept :
        (id : Bytes) (i : ℕ) (s : S)
        → IsReady s
        → In id (reachable_ids api (api.list_keys_with_prefix (codes "objmeta:") s) s)
        → api.get (chunk_key id i) (garbage_collect_chunks api s).0 ≡ api.get (chunk_key id i) s
    chunk_kept id i s r at =
        get-garbage_collect (chunk_key id i) s r ∙ ground (arith, kept_id _ id i at)

    -- The collection leaves every committed object as it was.
    pub get_object-garbage_collect :
        (b k : Bytes) (m : ObjectMetadata) (s : S)
        → IsReady s
        → fetch api b k s ≡ found m
        → m.state ≡ committed
        → get_object api b k (garbage_collect_chunks api s).0 ≡ get_object api b k s
    unfolding state_in
    get_object-garbage_collect b k m s r f c =
        get_object-same api b k s (garbage_collect_chunks api s).0 (meta_kept b k s r) (λ n f' i.
          chunk_kept n.object_id i s r (
            reachable_ids-has (object_meta_key b k) _ n s (meta_listed b k n s f')
              (unfold fetch in f') (ap state_in (sym f' ∙ f) ∙ c)))

    -- The collection removes every chunk whose object id is not empty and stands in no committed
    -- metadata.
    pub garbage_collect-removes :
        (id : Bytes) (i : ℕ) (s : S)
        → IsReady s
        → id ≢ []
        → ((key : Bytes) (m : ObjectMetadata)
            → StartsWith (codes "objmeta:") key
            → fetched (api.get key s) ≡ found m
            → m.state ≡ committed
            → m.object_id ≢ id)
        → api.get (chunk_key id i) (garbage_collect_chunks api s).0 ≡ none
    garbage_collect-removes id i s r ne unreached =
        get-garbage_collect (chunk_key id i) s r
        ∙ elim (Option-cases (api.get (chunk_key id i) s)) [
          | inl e ↦ ground (arith, e)
          | inr (v, e) ↦
              let listed : member (chunk_key id i) (api.list_keys_with_prefix chunk_prefix s)
                  ≡ true =
                (member_iff (chunk_key id i) _).1 (
                  (laws.list-iff chunk_prefix (chunk_key id i) s).1
                    (chunk_key-StartsWith id i, λ z. cc)) in
              let lost : member id
                    (reachable_ids api (api.list_keys_with_prefix (codes "objmeta:") s) s)
                  ≡ false =
                unreachable id s unreached in
              ground (arith, listed, lost, chunk_object_id-chunk_key id i ne)
        ]

    sweep-IsReady :
        (reachable ks : List Bytes) (n : ℕ) (s : S)
        → IsReady s
        → IsReady (sweep api reachable ks n s).0
    unfolding sweep
    sweep-IsReady reachable [] n s r = r
    sweep-IsReady reachable (k ∷ ks) n s r =
        if_intro (λ (x : S × ℕ). IsReady x.0) (is_garbage reachable (chunk_object_id k))
          (λ _.
            sweep-IsReady reachable ks (if (api.del k s).1 then n + 1 else n) (api.del k s).0
              (laws.del-IsReady k s r))
          (λ _. sweep-IsReady reachable ks n s r)

    pub garbage_collect-IsReady : (s : S) → IsReady s → IsReady (garbage_collect_chunks api s).0
    unfolding garbage_collect_chunks
    garbage_collect-IsReady s r = laws.flush_wal-IsReady _ (
        sweep-IsReady (reachable_ids api (api.list_keys_with_prefix (codes "objmeta:") s) s)
          (api.list_keys_with_prefix chunk_prefix s) 0 s r)
