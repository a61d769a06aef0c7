-- ===== src/ObjectStore/Races.antt =====
-- A collection in the middle of `PutObject`. Each call of the key-value store is atomic, but the object
-- store holds no lock, so another thread's collection may stand between the chunks and the metadata.
use native.Mathlib.Nat.{le-div_iff_mul-le}
use veri_store.Common.{
  ℕ, zero, suc, ◌+◌, ◌-◌, ◌/◌, ◌<◌, ◌≡◌, ◌≢◌, refl, sym, ap, ◌∙◌, true, false, not, none, some, [],
  ◌∷◌, ◌++◌, Bytes, codes, if◌then◌else◌, if_intro, arith, bytes_eq, bytes_eq_refl, bytes_eq_iff,
  length,
}
use veri_store.Text.{print_uint}
use veri_store.ObjectStore.Types.{committed, ObjectMetadata, PutObjectRequest, PutObjectResult}
use veri_store.ObjectStore.KeyCodec.{
  object_meta_key, bucket_index_key, chunk_key, meta-ne-chunk, index-ne-chunk, index-ne-meta,
}
use veri_store.ObjectStore.KvApi.{KvApi, Laws, StartsWith}
use veri_store.ObjectStore.Metadata.{serialize_metadata, deserialize-serialize_metadata, Keepable}
use veri_store.ObjectStore.Objects.{
  is_nil, write_chunks, found, fetched, fetch, read_chunks, missing, put_error, put_done, get_error,
  get_object, bucket_exists, new_metadata, make_object_id, chunk_count_of,
}
use veri_store.ObjectStore.Chunks.{
  Countable, chunk_count_of_lem, write_chunks-IsReady, get-write_chunks,
}
use veri_store.ObjectStore.ReadBack.{Storable, new_metadata-Keepable}
use veri_store.ObjectStore.Listing.{garbage_collect_chunks}
use veri_store.ObjectStore.Collect.{garbage_collect-removes, garbage_collect-IsReady}

positive_quotient : (n c : ℕ) → 0 < c → 0 < (suc n + c - 1) / c
positive_quotient n c h = (le-div_iff_mul-le h).1 (omega arith)

-- No chunk lies under a key that the collector reads as metadata.
chunk-ne-StartsWith :
    (id : Bytes) (i : ℕ) (key : Bytes)
    → StartsWith (codes "objmeta:") key
    → bytes_eq (chunk_key id i) key ≡ false
unfolding chunk_key
chunk-ne-StartsWith id i key h = ground (arith, bytes_eq_iff (chunk_key id i) key, h)

make_object_id-some : (b k : Bytes) (now : ℕ) → make_object_id b k now ≢ []
unfolding make_object_id
make_object_id-some [] k now = λ e. cc
make_object_id-some (c ∷ b) k now = λ e. cc

some_chunks :
    (c : ℕ) (bytes : Bytes)
    → Countable c (length bytes)
    → bytes ≢ []
    → 0 < chunk_count_of c (length bytes)
some_chunks c [] h ne = absurd (ne refl)
some_chunks c (x ∷ bytes) h ne =
    let count = chunk_count_of_lem c (length (x ∷ bytes)) h in
    let positive = h.positive in rw count (positive_quotient (length bytes) c positive)

module _ {S : Type 0} (api : KvApi S) where
  -- `write_object`, with a collection between the chunks and the metadata.
  unfoldable pub raced_write : ObjectMetadata → Bytes → S → S
  unfolding write_chunks garbage_collect_chunks
  raced_write m bytes s =
      let chunks = write_chunks api m.chunk_size_bytes m.object_id bytes m.chunk_count 0 s in
      let collected = (garbage_collect_chunks api chunks).0 in
      let with_meta = api.put (object_meta_key m.bucket m.key) (serialize_metadata m) collected in
      api.put (bucket_index_key m.bucket m.key) m.object_id with_meta

  -- `PutObject` with another thread's collection there, all else as in `put_object`.
  unfoldable pub raced_put : (Bytes → ℕ) → ℕ → ℕ → ℕ → PutObjectRequest → S → S × PutObjectResult
  unfolding bucket_exists new_metadata raced_write
  raced_put hash chunk_size now_id now_ms req s =
      let m = new_metadata hash chunk_size now_id now_ms req in
      let flushed = api.flush_wal (raced_write m req.data_bytes s) in
      if is_nil req.bucket
      then (s, put_error (codes "bucket is empty"))
      else if is_nil req.key
      then (s, put_error (codes "object key is empty"))
      else if not (bucket_exists api req.bucket s)
      then (s, put_error (codes "bucket does not exist"))
      else if not flushed.1
      then (flushed.0, put_error (codes "failed to flush WAL"))
      else (flushed.0, put_done m)

  raced_put-done :
      (hash : Bytes → ℕ) (c now_id now_ms : ℕ) (req : PutObjectRequest) (s : S)
      → req.bucket ≢ []
      → req.key ≢ []
      → bucket_exists api req.bucket s ≡ true
      → (api.flush_wal (raced_write (new_metadata hash c now_id now_ms req) req.data_bytes s)).1
        ≡ true
      → raced_put hash c now_id now_ms req s ≡ (
        (api.flush_wal (raced_write (new_metadata hash c now_id now_ms req) req.data_bytes s)).0,
        put_done (new_metadata hash c now_id now_ms req),
      )
  unfolding raced_put
  raced_put-done hash c now_id now_ms req s nb nk ex fl =
      let m = new_metadata hash c now_id now_ms req in
      let flushed = api.flush_wal (raced_write m req.data_bytes s) in
      let behind : S × PutObjectResult → Type 0 = λ x. x ≡ (flushed.0, put_done m) in
      if_intro behind (is_nil req.bucket) (λ e. absurd (ground (arith, nb)))
        λ _.
          if_intro behind (is_nil req.key) (λ e. absurd (ground (arith, nk)))
            λ _.
              if_intro behind (not (bucket_exists api req.bucket s))
                (λ e. absurd (ground (arith, ex)))
                λ _. if_intro behind (not flushed.1) (λ e. absurd (ground (arith, fl))) (λ _. refl)

  first_missing :
      (id : Bytes) (n : ℕ) (s : S)
      → 0 < n
      → api.get (chunk_key id 0) s ≡ none
      → read_chunks api id n 0 [] s ≡ missing 0
  unfolding read_chunks
  first_missing id zero s h e = absurd (omega arith)
  first_missing id (suc n) s h e = rw (e, read_chunks) refl

  module _ (IsReady : S → Type 0) (laws : Laws api IsReady) where
    entries_put :
        (m : ObjectMetadata) (j : Bytes) (s : S)
        → IsReady s
        → api.get j
            (api.flush_wal (
              api.put
                (bucket_index_key m.bucket m.key)
                m.object_id
                (api.put (object_meta_key m.bucket m.key) (serialize_metadata m) s))).0
          ≡ (if bytes_eq (bucket_index_key m.bucket m.key) j
              then some m.object_id
              else if bytes_eq (object_meta_key m.bucket m.key) j
              then some (serialize_metadata m)
              else api.get j s)
    entries_put m j s r =
        let mk = object_meta_key m.bucket m.key in
        let ik = bucket_index_key m.bucket m.key in
        let after = api.put mk (serialize_metadata m) s in
        ground (
          arith,
          laws.get-flush_wal j (api.put ik m.object_id after),
          laws.get-put ik m.object_id j after (laws.put-IsReady mk (serialize_metadata m) s r),
          laws.get-put mk (serialize_metadata m) j s r,
        )

    missing_first :
        (m : ObjectMetadata) (b k : Bytes) (s : S)
        → fetch api b k s ≡ found m
        → m.state ≡ committed
        → 0 < m.chunk_count
        → api.get (chunk_key m.object_id 0) s ≡ none
        → get_object api b k s
          ≡ get_error (codes "missing object chunk at index " ++ print_uint 0) m
    unfolding get_object
    missing_first m b k s f c h e =
        rw f (rw c (rw (first_missing m.object_id m.chunk_count s h e) refl))

    pub raced_write-IsReady :
        (m : ObjectMetadata) (bytes : Bytes) (s : S) → IsReady s → IsReady (raced_write m bytes s)
    unfolding raced_write
    raced_write-IsReady m bytes s r =
        let chunks = write_chunks api m.chunk_size_bytes m.object_id bytes m.chunk_count 0 s in
        let ready =
          write_chunks-IsReady api IsReady laws m.chunk_size_bytes m.object_id bytes m.chunk_count 0
            s r in
        laws.put-IsReady _ _ _
          (laws.put-IsReady _ _ _ (garbage_collect-IsReady api IsReady laws chunks ready))

    lost :
        (m : ObjectMetadata) (bytes : Bytes) (s : S)
        → IsReady s
        → Keepable m
        → m.state ≡ committed
        → 0 < m.chunk_count
        → m.object_id ≢ []
        → ((key : Bytes) (n : ObjectMetadata)
            → StartsWith (codes "objmeta:") key
            → fetched (api.get key s) ≡ found n
            → n.state ≡ committed
            → n.object_id ≢ m.object_id)
        → get_object api m.bucket m.key (api.flush_wal (raced_write m bytes s)).0
          ≡ get_error (codes "missing object chunk at index " ++ print_uint 0) m
    unfolding raced_write
    lost m bytes s r h c some_chunks ne unused =
        let chunks = write_chunks api m.chunk_size_bytes m.object_id bytes m.chunk_count 0 s in
        let ready =
          write_chunks-IsReady api IsReady laws m.chunk_size_bytes m.object_id bytes m.chunk_count 0
            s r in
        let still_unused : (key : Bytes) (n : ObjectMetadata)
            → StartsWith (codes "objmeta:") key
            → fetched (api.get key chunks) ≡ found n
            → n.state ≡ committed
            → n.object_id ≢ m.object_id =
          λ key n p f. unused key n p (
            ap fetched (
              sym (
                get-write_chunks api IsReady laws m.chunk_size_bytes m.object_id bytes m.chunk_count
                  0 key s r (λ i. chunk-ne-StartsWith m.object_id i key p)))
            ∙ f) in
        let collected = (garbage_collect_chunks api chunks).0 in
        let still = garbage_collect-IsReady api IsReady laws chunks ready in
        missing_first m m.bucket m.key (api.flush_wal (raced_write m bytes s)).0
          (unfold fetch in
            rw (entries_put m (object_meta_key m.bucket m.key) collected still) (
              rw (index-ne-meta m.bucket m.key m.bucket m.key) (
                rw (bytes_eq_refl (object_meta_key m.bucket m.key))
                  (rw (deserialize-serialize_metadata m h) refl))))
          c some_chunks
          (entries_put m (chunk_key m.object_id 0) collected still
            ∙ (rw (index-ne-chunk m.bucket m.key m.object_id 0)
                  (rw (meta-ne-chunk m.bucket m.key m.object_id 0) refl)
                ∙ garbage_collect-removes api IsReady laws m.object_id 0 chunks ready ne
                    still_unused))

    -- A collection between the chunks and the metadata of a put loses the object: `PutObject`
    -- reports success, with the object's id, size, count of chunks and tag, but `GetObject` then finds
    -- the metadata and fails on the first chunk. The bucket is there, the request holds data, no tabs
    -- and numbers that fit, no committed metadata have the new object id, and the flush of the log
    -- succeeds.
    pub collection_loses_put :
        (hash : Bytes → ℕ) (c now_id now_ms : ℕ) (req : PutObjectRequest) (s : S)
        → IsReady s
        → Storable c now_ms req
        → bucket_exists api req.bucket s ≡ true
        → req.data_bytes ≢ []
        → ((key : Bytes) (n : ObjectMetadata)
            → StartsWith (codes "objmeta:") key
            → fetched (api.get key s) ≡ found n
            → n.state ≡ committed
            → n.object_id ≢ make_object_id req.bucket req.key now_id)
        → (api.flush_wal (raced_write (new_metadata hash c now_id now_ms req) req.data_bytes s)).1
          ≡ true
        → ((raced_put hash c now_id now_ms req s).1
            ≡ put_done (new_metadata hash c now_id now_ms req))
          × (get_object api req.bucket req.key (raced_put hash c now_id now_ms req s).0
              ≡ get_error
                  (codes "missing object chunk at index " ++ print_uint 0)
                  (new_metadata hash c now_id now_ms req))
    collection_loses_put hash c now_id now_ms req s r h ex some_data unused fl =
        let m = new_metadata hash c now_id now_ms req in
        let done = raced_put-done hash c now_id now_ms req s h.bucket_given h.key_given ex fl in
        (
          ap (λ x. x.1) done,
          ap (λ x. get_object api req.bucket req.key x.0) done
              ∙ unfold new_metadata in
                lost m req.data_bytes s r (new_metadata-Keepable hash c now_id now_ms req h) refl
                  (some_chunks c req.data_bytes h.countable some_data)
                  (make_object_id-some req.bucket req.key now_id) unused,
        )
