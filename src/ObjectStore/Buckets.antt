-- ===== src/ObjectStore/Buckets.antt =====
-- Which buckets there are after `CreateBucket`, and what two buckets share.
use veri_store.Common.{
  ℕ, ◌≡◌, ◌≢◌, refl, sym, ap, ◌∙◌, true, [], ◌∷◌, ◌++◌, Bytes, bytes_eq, bytes_eq_iff,
  if◌then◌else◌, arith, Bool-cases, inl, inr,
}
use veri_store.ObjectStore.Types.{PutObjectRequest}
use veri_store.ObjectStore.KeyCodec.{
  colon, bucket_meta_key, object_meta_key, object_meta_key-collides,
}
use veri_store.ObjectStore.Metadata.{serialize_bucket_meta}
use veri_store.ObjectStore.KvApi.{KvApi, Laws}
use veri_store.ObjectStore.Objects.{
  is_some, new_metadata, bucket_exists, create_bucket, put_object, fetch, fetched, get_fetched,
  get_object,
}
use veri_store.ObjectStore.ReadBack.{Storable, get_object-put_object}

bucket_meta_key-eq : (a b : Bytes) → bytes_eq (bucket_meta_key a) (bucket_meta_key b) ≡ bytes_eq a b
unfolding bucket_meta_key bytes_eq
bucket_meta_key-eq a b = refl

module _ {S : Type 0} (api : KvApi S) where
  get_object-by_key :
      (b k c l : Bytes) (s : S)
      → object_meta_key b k ≡ object_meta_key c l
      → get_object api b k s ≡ get_object api c l s
  unfolding get_object fetch
  get_object-by_key b k c l s e = ap (λ x. get_fetched api (fetched (api.get x s)) s) e

  there_already :
      (b c : Bytes) (s : S)
      → is_some (api.get (bucket_meta_key b) s) ≡ true
      → is_some (api.get (bucket_meta_key c) s)
        ≡ (if bytes_eq b c then true else is_some (api.get (bucket_meta_key c) s))
  there_already b c s e = ground (
    arith,
    bytes_eq_iff b c,
    λ (same : b ≡ c). ap (λ x. is_some (api.get (bucket_meta_key x) s)) same,
  )

  module _ (IsReady : S → Type 0) (laws : Laws api IsReady) where
    -- After the creation of a bucket with a name it is there, whether it was there before or not, and
    -- of the others those that were there.
    pub bucket_exists-create_bucket :
        (now : ℕ) (b c : Bytes) (s : S)
        → IsReady s
        → b ≢ []
        → bucket_exists api c (create_bucket api now b s).0
          ≡ (if bytes_eq b c then true else bucket_exists api c s)
    unfolding bucket_exists create_bucket
    bucket_exists-create_bucket now [] c s r ne = absurd (ne refl)
    bucket_exists-create_bucket now (x ∷ b) [] s r ne = ground (arith, bytes_eq_iff (x ∷ b) [])
    bucket_exists-create_bucket now (x ∷ b) (y ∷ c) s r ne =
        let text = serialize_bucket_meta (record { name = x ∷ b; created_at_epoch_ms = now }) in
        elim (Bool-cases (is_some (api.get (bucket_meta_key (x ∷ b)) s))) [
          | inl e ↦ rw e (there_already (x ∷ b) (y ∷ c) s e)
          | inr e ↦ rw e (
              rw (laws.get-put (bucket_meta_key (x ∷ b)) text (bucket_meta_key (y ∷ c)) s r)
                (rw (bucket_meta_key-eq (x ∷ b) (y ∷ c)) (ground arith)))
        ]

    -- An object that was put in a bucket whose name joins two names with a colon is what a get returns
    -- from the bucket of the first name, under the second name joined to the key.
    pub buckets_collide :
        (hash : Bytes → ℕ) (chunk_size now_id now_ms : ℕ) (b c : Bytes) (req : PutObjectRequest)
        (s : S)
        → IsReady s
        → req.bucket ≡ b ++ colon ∷ c
        → Storable chunk_size now_ms req
        → bucket_exists api req.bucket s ≡ true
        → get_object api b
            (c ++ colon ∷ req.key)
            (put_object api hash chunk_size now_id now_ms req s).0
          ≡ record {
            found = true;
            error = [];
            metadata = new_metadata hash chunk_size now_id now_ms req;
            data_bytes = req.data_bytes;
          }
    buckets_collide hash chunk_size now_id now_ms b c req s r e h ex =
        get_object-by_key b (c ++ colon ∷ req.key) req.bucket req.key
          (put_object api hash chunk_size now_id now_ms req s).0
          (sym (object_meta_key-collides b c req.key) ∙ ap (λ x. object_meta_key x req.key) (sym e))
        ∙ get_object-put_object api IsReady laws hash chunk_size now_id now_ms req s r h ex
