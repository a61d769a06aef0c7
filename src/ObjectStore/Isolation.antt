-- ===== src/ObjectStore/Isolation.antt =====
-- Other objects after `PutObject`, and an object after `DeleteObject`.
use veri_store.Common.{
  ℕ, zero, suc, ◌+◌, ◌<◌, ◌≡◌, ◌≢◌, refl, ap, ◌∙◌, false, not, some, [], ◌++◌, Bytes, codes,
  if_intro, arith, bytes_eq, bytes_eq_iff, bytes_eq_refl, Option-cases, inl, inr,
}
use veri_store.Text.{u64_mod}
use veri_store.ObjectStore.Types.{
  deleted, ObjectMetadata, no_metadata, PutObjectRequest, PutObjectResult, DeleteObjectResult,
}
use veri_store.ObjectStore.KeyCodec.{
  object_meta_key, bucket_index_key, chunk_key, chunk_key-injective, chunk-ne-meta, index-ne-meta,
  meta-ne-chunk, index-ne-chunk,
}
use veri_store.ObjectStore.KvApi.{KvApi, Laws}
use veri_store.ObjectStore.Metadata.{serialize_metadata, deserialize-serialize_metadata, Keepable}
use veri_store.ObjectStore.Objects.{
  is_nil, make_object_id, new_metadata, bucket_exists, write_object, put_object, Fetched, absent,
  unreadable, found, fetched, fetch, read_chunks, get_fetched, get_error, get_object, delete_object,
}
use veri_store.ObjectStore.Chunks.{get-write_chunks}
use veri_store.ObjectStore.ReadBack.{past_write_object}

module _ {S : Type 0} (api : KvApi S) where
  -- What is read is what the entries of the chunks say.
  pub read_chunks-same :
      (id : Bytes) (left i : ℕ) (acc : Bytes) (s u : S)
      → ((m : ℕ) → api.get (chunk_key id m) u ≡ api.get (chunk_key id m) s)
      → read_chunks api id left i acc u ≡ read_chunks api id left i acc s
  unfolding read_chunks
  read_chunks-same id zero i acc s u h = refl
  read_chunks-same id (suc left) i acc s u h =
      rw (h i, read_chunks)
        (elim (Option-cases (api.get (chunk_key id i) s)) [
          | inl e ↦ rw (e, read_chunks) refl
          | inr (chunk, e) ↦
              rw (e, read_chunks) (read_chunks-same id left (i + 1) (acc ++ chunk) s u h)
        ])

  get_fetched-same :
      (f : Fetched) (s u : S)
      → ((m : ObjectMetadata)
          → f ≡ found m
          → (i : ℕ) → api.get (chunk_key m.object_id i) u ≡ api.get (chunk_key m.object_id i) s)
      → get_fetched api f u ≡ get_fetched api f s
  get_fetched-same absent s u h = refl
  get_fetched-same unreadable s u h = refl
  get_fetched-same (found m) s u h =
      rw (read_chunks-same m.object_id m.chunk_count 0 [] s u (h m refl)) refl

  -- An object is as it was if its metadata entry and the entries of its chunks are.
  pub get_object-same :
      (b k : Bytes) (s u : S)
      → api.get (object_meta_key b k) u ≡ api.get (object_meta_key b k) s
      → ((m : ObjectMetadata)
          → fetch api b k s ≡ found m
          → (i : ℕ) → api.get (chunk_key m.object_id i) u ≡ api.get (chunk_key m.object_id i) s)
      → get_object api b k u ≡ get_object api b k s
  unfolding get_object fetch
  get_object-same b k s u e h =
      rw e (get_fetched-same (fetched (api.get (object_meta_key b k) s)) s u h)

  module _ (IsReady : S → Type 0) (laws : Laws api IsReady) where
    other_entry :
        (m : ObjectMetadata) (bytes j : Bytes) (s : S)
        → IsReady s
        → bytes_eq (object_meta_key m.bucket m.key) j ≡ false
        → bytes_eq (bucket_index_key m.bucket m.key) j ≡ false
        → ((i : ℕ) → bytes_eq (chunk_key m.object_id i) j ≡ false)
        → api.get j (api.flush_wal (write_object api m bytes s)).0 ≡ api.get j s
    other_entry m bytes j s r ne ni nc =
        laws.get-flush_wal j (write_object api m bytes s)
        ∙ (past_write_object api IsReady laws m bytes j s r ne ni
            ∙ get-write_chunks api IsReady laws m.chunk_size_bytes m.object_id bytes m.chunk_count 0
                j s r nc)

    other_chunk : (a b : Bytes) (i j : ℕ) → a ≢ b → bytes_eq (chunk_key a i) (chunk_key b j) ≡ false
    other_chunk a b i j ne =
        ground (arith, bytes_eq_iff (chunk_key a i) (chunk_key b j), chunk_key-injective a b i j)

    get_object-write_object :
        (m : ObjectMetadata) (bytes b k : Bytes) (s : S)
        → IsReady s
        → object_meta_key m.bucket m.key ≢ object_meta_key b k
        → ((n : ObjectMetadata) → fetch api b k s ≡ found n → m.object_id ≢ n.object_id)
        → get_object api b k (api.flush_wal (write_object api m bytes s)).0 ≡ get_object api b k s
    get_object-write_object m bytes b k s r ne other =
        get_object-same b k s (api.flush_wal (write_object api m bytes s)).0
          (other_entry m bytes (object_meta_key b k) s r
            (ground (arith, bytes_eq_iff (object_meta_key m.bucket m.key) (object_meta_key b k)))
            (index-ne-meta m.bucket m.key b k) (λ i. chunk-ne-meta m.object_id i b k))
          (λ n f i.
            other_entry m bytes (chunk_key n.object_id i) s r
              (meta-ne-chunk m.bucket m.key n.object_id i)
              (index-ne-chunk m.bucket m.key n.object_id i)
              (λ j. other_chunk m.object_id n.object_id j i (other n f)))

    -- A put, whatever comes of it, leaves every other object as it was: one whose metadata stand under
    -- another key, and whose id is not the new one.
    pub get_object-put_object_other :
        (hash : Bytes → ℕ) (c now_id now_ms : ℕ) (req : PutObjectRequest) (b k : Bytes) (s : S)
        → IsReady s
        → object_meta_key req.bucket req.key ≢ object_meta_key b k
        → ((n : ObjectMetadata)
            → fetch api b k s ≡ found n
            → make_object_id req.bucket req.key now_id ≢ n.object_id)
        → get_object api b k (put_object api hash c now_id now_ms req s).0 ≡ get_object api b k s
    unfolding put_object new_metadata
    get_object-put_object_other hash c now_id now_ms req b k s r ne other =
        let m = new_metadata hash c now_id now_ms req in
        let kept : S × PutObjectResult → Type 0 =
          λ x. get_object api b k x.0 ≡ get_object api b k s in
        let written = get_object-write_object m req.data_bytes b k s r ne other in
        if_intro kept (is_nil req.bucket) (λ _. refl)
          λ _.
            if_intro kept (is_nil req.key) (λ _. refl)
              λ _.
                if_intro kept (not (bucket_exists api req.bucket s)) (λ _. refl)
                  λ _.
                    if_intro kept (not (api.flush_wal (write_object api m req.data_bytes s)).1)
                      (λ _. written) (λ _. written)

    marked : ℕ → ObjectMetadata → ObjectMetadata
    marked now m = record m { state = deleted; updated_at_epoch_ms = now }

    marked-Keepable :
        (now : ℕ) (m : ObjectMetadata) → Keepable m → now < u64_mod → Keepable (marked now m)
    unfolding marked
    marked-Keepable now m h fits = record {
      id_tabless = h.id_tabless;
      bucket_tabless = h.bucket_tabless;
      key_tabless = h.key_tabless;
      type_tabless = h.type_tabless;
      etag_tabless = h.etag_tabless;
      size_fits = h.size_fits;
      count_fits = h.count_fits;
      chunk_fits = h.chunk_fits;
      created_fits = h.created_fits;
      updated_fits = fits;
      good_state = (omega arith, refl);
    }

    delete_object-state :
        (now : ℕ) (b k : Bytes) (m : ObjectMetadata) (s : S)
        → fetch api b k s ≡ found m
        → (delete_object api now b k s).0
          ≡ (api.flush_wal
              (api.del
                (bucket_index_key b k)
                (api.put (object_meta_key b k) (serialize_metadata (marked now m)) s)).0).0
    unfolding delete_object marked
    delete_object-state now b k m s f = rw f (
        if_intro
          (λ (x : S × DeleteObjectResult).
            x.0
            ≡ (api.flush_wal
                (api.del (bucket_index_key b k)
                  (api.put (object_meta_key b k) (serialize_metadata (marked now m)) s)).0).0)
          _ (λ _. refl) (λ _. refl))

    -- A get of an object that was found and then deleted says that it is deleted.
    pub get_object-delete_object :
        (now : ℕ) (b k : Bytes) (m : ObjectMetadata) (s : S)
        → IsReady s
        → fetch api b k s ≡ found m
        → Keepable m
        → now < u64_mod
        → get_object api b k (delete_object api now b k s).0
          ≡ get_error (codes "object is deleted") no_metadata
    get_object-delete_object now b k m s r f h fits =
        let mk = object_meta_key b k in
        let after = api.put mk (serialize_metadata (marked now m)) s in
        let entry : api.get mk (delete_object api now b k s).0
            ≡ some (serialize_metadata (marked now m)) =
          ap (api.get mk) (delete_object-state now b k m s f)
          ∙ (laws.get-flush_wal mk (api.del (bucket_index_key b k) after).0
              ∙ (laws.get-del (bucket_index_key b k) mk after
                    (laws.put-IsReady mk (serialize_metadata (marked now m)) s r)
                  ∙ (rw (index-ne-meta b k b k) refl
                      ∙ (laws.get-put mk (serialize_metadata (marked now m)) mk s r
                          ∙ rw (bytes_eq_refl mk) refl)))) in
        unfold get_object fetch in
        rw entry (
          rw (deserialize-serialize_metadata (marked now m) (marked-Keepable now m h fits))
            (unfold marked in refl))
