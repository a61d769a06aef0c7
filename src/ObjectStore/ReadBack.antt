-- ===== src/ObjectStore/ReadBack.antt =====
-- What `GetObject` returns after `PutObject` and `DeleteObject`, over any key-value store that keeps
-- the laws.
use veri_store.Common.{
  ℕ, zero, suc, ◌+◌, ◌/◌, ◌<◌, ◌≡◌, ◌≢◌, refl, ap, ◌∙◌, true, false, not, some, [], Bytes, length,
  if◌then◌else◌, if_intro, arith, bytes_eq, bytes_eq_refl, All-append, ltb,
}
use veri_store.Text.{tab, u64_mod, is_digit}
use veri_store.Text.Numbers.{Without, print_uint-Without}
use veri_store.ObjectStore.Types.{committed, ObjectMetadata, PutObjectRequest, PutObjectResult}
use veri_store.ObjectStore.KeyCodec.{
  object_meta_key, bucket_index_key, chunk_key, index-ne-meta, meta-ne-chunk, index-ne-chunk,
}
use veri_store.ObjectStore.KvApi.{KvApi, Laws}
use veri_store.ObjectStore.Metadata.{
  u32_mod, serialize_metadata, deserialize-serialize_metadata, Keepable,
}
use veri_store.ObjectStore.Objects.{
  is_nil, hex_of, compute_etag, make_object_id, chunk_count_of, new_metadata, bucket_exists,
  write_chunks, write_object, put_object, found, fetch, read_chunks, whole, get_object, is_deleted,
}
use veri_store.ObjectStore.Chunks.{
  Countable, chunk_count_of_lem, chunks-all, HasChunks, read_chunks-whole, write_chunks-IsReady,
  write_chunks-HasChunks,
}

hex_of-Without : (fuel n : ℕ) → Without tab (hex_of fuel n)
unfolding hex_of
hex_of-Without zero n = tt
hex_of-Without (suc fuel) n =
    All-append _ (if ltb n 16 then [] else hex_of fuel (n / 16)) _
      (if_intro (Without tab) (ltb n 16) (λ _. tt) (λ _. hex_of-Without fuel (n / 16)))
      (ground arith, tt)

-- A request that the metadata can keep: texts without tabs, numbers that fit.
pub record Storable (chunk_size now_ms : ℕ) (req : PutObjectRequest) : Type 0 where
  pub bucket_given : req.bucket ≢ []
  pub key_given : req.key ≢ []
  pub bucket_tabless : Without tab req.bucket
  pub key_tabless : Without tab req.key
  pub type_tabless : Without tab req.content_type
  pub countable : Countable chunk_size (length req.data_bytes)
  pub chunk_fits : chunk_size < u32_mod
  pub now_fits : now_ms < u64_mod

pub new_metadata-Keepable :
    (hash : Bytes → ℕ) (c now_id now_ms : ℕ) (req : PutObjectRequest)
    → Storable c now_ms req
    → Keepable (new_metadata hash c now_id now_ms req)
unfolding new_metadata make_object_id compute_etag
new_metadata-Keepable hash c now_id now_ms req h = record {
  id_tabless = All-append _ req.bucket _ h.bucket_tabless (
    (omega arith),
    All-append _ req.key _ h.key_tabless
        ((omega arith), print_uint-Without tab now_id (unfold is_digit in refl)),
  );
  bucket_tabless = h.bucket_tabless;
  key_tabless = h.key_tabless;
  type_tabless = h.type_tabless;
  etag_tabless = hex_of-Without (hash req.data_bytes + 1) (hash req.data_bytes);
  size_fits = omega (arith, h.countable.total_fits, h.countable.positive);
  count_fits =
      omega
        (arith, chunk_count_of_lem c (length req.data_bytes) h.countable, h.countable.count_fits);
  chunk_fits = h.chunk_fits;
  created_fits = h.now_fits;
  updated_fits = h.now_fits;
  good_state = (omega arith, refl);
}

module _ {S : Type 0} (api : KvApi S) (IsReady : S → Type 0) (laws : Laws api IsReady) where
  meta-write_object :
      (m : ObjectMetadata) (bytes : Bytes) (s : S)
      → IsReady s
      → api.get (object_meta_key m.bucket m.key) (write_object api m bytes s)
        ≡ some (serialize_metadata m)
  unfolding write_object
  meta-write_object m bytes s r =
      let chunks = write_chunks api m.chunk_size_bytes m.object_id bytes m.chunk_count 0 s in
      let ready =
        write_chunks-IsReady api IsReady laws m.chunk_size_bytes m.object_id bytes m.chunk_count 0 s
          r in
      let mk = object_meta_key m.bucket m.key in
      laws.get-put (bucket_index_key m.bucket m.key) m.object_id mk _
        (laws.put-IsReady mk (serialize_metadata m) chunks ready)
      ∙ (rw (index-ne-meta m.bucket m.key m.bucket m.key) refl
          ∙ (laws.get-put mk (serialize_metadata m) mk chunks ready ∙ rw (bytes_eq_refl mk) refl))

  -- What the two writes behind the chunks leave of another entry.
  pub past_write_object :
      (m : ObjectMetadata) (bytes : Bytes) (j : Bytes) (s : S)
      → IsReady s
      → bytes_eq (object_meta_key m.bucket m.key) j ≡ false
      → bytes_eq (bucket_index_key m.bucket m.key) j ≡ false
      → api.get j (write_object api m bytes s)
        ≡ api.get j (write_chunks api m.chunk_size_bytes m.object_id bytes m.chunk_count 0 s)
  unfolding write_object
  past_write_object m bytes j s r ne ni =
      let chunks = write_chunks api m.chunk_size_bytes m.object_id bytes m.chunk_count 0 s in
      let ready =
        write_chunks-IsReady api IsReady laws m.chunk_size_bytes m.object_id bytes m.chunk_count 0 s
          r in
      let mk = object_meta_key m.bucket m.key in
      laws.get-put (bucket_index_key m.bucket m.key) m.object_id j _
        (laws.put-IsReady mk (serialize_metadata m) chunks ready)
      ∙ (rw ni refl ∙ (laws.get-put mk (serialize_metadata m) j chunks ready ∙ rw ne refl))

  -- `PutObject` behind its guards.
  put_object-state :
      (hash : Bytes → ℕ) (c now_id now_ms : ℕ) (req : PutObjectRequest) (s : S)
      → req.bucket ≢ []
      → req.key ≢ []
      → bucket_exists api req.bucket s ≡ true
      → (put_object api hash c now_id now_ms req s).0
        ≡ (api.flush_wal
            (write_object api (new_metadata hash c now_id now_ms req) req.data_bytes s)).0
  unfolding put_object
  put_object-state hash c now_id now_ms req s nb nk ex =
      let behind : S × PutObjectResult → Type 0 = λ x.
        x.0
        ≡ (api.flush_wal
            (write_object api (new_metadata hash c now_id now_ms req) req.data_bytes s)).0 in
      if_intro behind (is_nil req.bucket) (λ e. absurd (ground (arith, nb)))
        λ _.
          if_intro behind (is_nil req.key) (λ e. absurd (ground (arith, nk)))
            λ _.
              if_intro behind (not (bucket_exists api req.bucket s))
                (λ e. absurd (ground (arith, ex)))
                λ _.
                  if_intro behind
                    (not
                      (api.flush_wal (
                        write_object api (new_metadata hash c now_id now_ms req) req.data_bytes
                          s)).1)
                    (λ _. refl) (λ _. refl)

  get_found :
      (m : ObjectMetadata) (bytes b k : Bytes) (s : S)
      → fetch api b k s ≡ found m
      → is_deleted m.state ≡ false
      → read_chunks api m.object_id m.chunk_count 0 [] s ≡ whole bytes
      → get_object api b k s ≡ record { found = true; error = []; metadata = m; data_bytes = bytes }
  unfolding get_object
  get_found m bytes b k s f d w = rw f (rw d (rw w refl))

  fetch-write_object :
      (m : ObjectMetadata) (bytes : Bytes) (s : S)
      → IsReady s
      → Keepable m
      → fetch api m.bucket m.key (api.flush_wal (write_object api m bytes s)).0 ≡ found m
  unfolding fetch
  fetch-write_object m bytes s r h =
      rw (laws.get-flush_wal (object_meta_key m.bucket m.key) (write_object api m bytes s))
        (rw (meta-write_object m bytes s r) (rw (deserialize-serialize_metadata m h) refl))

  chunks-write_object :
      (m : ObjectMetadata) (bytes : Bytes) (s : S)
      → IsReady s
      → HasChunks api m.chunk_size_bytes m.object_id bytes m.chunk_count 0
          (api.flush_wal (write_object api m bytes s)).0
  chunks-write_object m bytes s r i lo hi =
      let k = chunk_key m.object_id i in
      laws.get-flush_wal k (write_object api m bytes s)
      ∙ (past_write_object m bytes k s r (meta-ne-chunk m.bucket m.key m.object_id i)
            (index-ne-chunk m.bucket m.key m.object_id i)
          ∙ write_chunks-HasChunks api IsReady laws m.chunk_size_bytes m.object_id bytes
              m.chunk_count 0 s r i lo hi)

  get-write_object :
      (m : ObjectMetadata) (bytes : Bytes) (s : S)
      → IsReady s
      → Keepable m
      → m.state ≡ committed
      → m.chunk_count ≡ chunk_count_of m.chunk_size_bytes (length bytes)
      → Countable m.chunk_size_bytes (length bytes)
      → get_object api m.bucket m.key (api.flush_wal (write_object api m bytes s)).0
        ≡ record { found = true; error = []; metadata = m; data_bytes = bytes }
  get-write_object m bytes s r h live count fits =
      let after = (api.flush_wal (write_object api m bytes s)).0 in
      get_found m bytes m.bucket m.key after (fetch-write_object m bytes s r h) (rw live refl) (
        read_chunks-whole api m.chunk_size_bytes m.object_id bytes m.chunk_count 0 [] after
          (chunks-write_object m bytes s r)
        ∙ ap whole (rw count (chunks-all m.chunk_size_bytes bytes fits)))

  -- An object that was put is what a get of its bucket and key returns, with the metadata and exactly
  -- the data of the request, even if the flush of the log failed: where the bucket is there and the
  -- request holds no tabs and numbers that fit.
  pub get_object-put_object :
      (hash : Bytes → ℕ) (c now_id now_ms : ℕ) (req : PutObjectRequest) (s : S)
      → IsReady s
      → Storable c now_ms req
      → bucket_exists api req.bucket s ≡ true
      → get_object api req.bucket req.key (put_object api hash c now_id now_ms req s).0 ≡ record {
        found = true;
        error = [];
        metadata = new_metadata hash c now_id now_ms req;
        data_bytes = req.data_bytes;
      }
  get_object-put_object hash c now_id now_ms req s r h ex =
      let m = new_metadata hash c now_id now_ms req in
      ap (get_object api req.bucket req.key)
        (put_object-state hash c now_id now_ms req s h.bucket_given h.key_given ex)
      ∙ unfold new_metadata in
        get-write_object m req.data_bytes s r (new_metadata-Keepable hash c now_id now_ms req h)
          refl refl h.countable
