-- ===== src/ObjectStore/Objects.antt =====
-- Buckets, and `PutObject`, `GetObject` and `DeleteObject`. `hash` is the library's `std::hash`, and
-- each reading of the system clock is an argument. The message on an overwrite is left out.
use veri_store.Common.{
  ℕ, zero, suc, ◌+◌, ◌-◌, ◌*◌, ◌/◌, ◌%◌, min, Bool, true, false, not, Option, none, some, List, [],
  ◌∷◌, ◌++◌, Bytes, codes, length, take, drop, ltb, ◌==◌, if◌then◌else◌,
}
use veri_store.Text.{print_uint, u64_mod}
use veri_store.ObjectStore.Types.{
  committed, deleted, ObjectState, ObjectMetadata, no_metadata, PutObjectRequest, PutObjectResult,
  GetObjectResult, DeleteObjectResult,
}
use veri_store.ObjectStore.KeyCodec.{
  colon, bucket_meta_key, object_meta_key, bucket_index_key, chunk_key,
}
use veri_store.ObjectStore.KvApi.{KvApi}
use veri_store.ObjectStore.Metadata.{
  u32_mod, serialize_metadata, deserialize_metadata, serialize_bucket_meta,
}

abbrev pub is_nil {ℓ} : {A : Type ℓ} → List A → Bool
is_nil [] = true
is_nil (x ∷ xs) = false

abbrev pub is_some {ℓ} : {A : Type ℓ} → Option A → Bool
is_some none = false
is_some (some a) = true

abbrev pub is_deleted : ObjectState → Bool
is_deleted deleted = true
is_deleted _ = false

-- `out << std::hex << h`, on fuel that bounds the number.
abbrev hex_digit : ℕ → ℕ
hex_digit d = if ltb d 10 then 48 + d else 87 + d

unfoldable pub hex_of : ℕ → ℕ → Bytes
hex_of zero n = []
hex_of (suc fuel) n =
    let high = hex_of fuel (n / 16) in (if ltb n 16 then [] else high) ++ hex_digit (n % 16) ∷ []

unfoldable pub compute_etag : (Bytes → ℕ) → Bytes → Bytes
unfolding hex_of
compute_etag hash bytes = hex_of (hash bytes + 1) (hash bytes)

unfoldable pub make_object_id : Bytes → Bytes → ℕ → Bytes
make_object_id bucket key now = bucket ++ colon ∷ (key ++ colon ∷ print_uint now)

-- The constructor's chunk size.
abbrev pub clamp_chunk_size : ℕ → ℕ
clamp_chunk_size chunk_size_bytes = if chunk_size_bytes == 0 then 4096 else chunk_size_bytes

unfoldable pub chunk_count_of : ℕ → ℕ → ℕ
chunk_count_of chunk_size total = (total + chunk_size - 1) % u64_mod / chunk_size % u32_mod

-- The bytes from `start` to `end` of the data.
unfoldable pub chunk_at : ℕ → Bytes → ℕ → Bytes
chunk_at chunk_size bytes i =
    let start = i * chunk_size in
    let end = min (start + chunk_size) (length bytes) in take (end - start) (drop start bytes)

-- The metadata of an object that is put.
unfoldable pub new_metadata : (Bytes → ℕ) → ℕ → ℕ → ℕ → PutObjectRequest → ObjectMetadata
unfolding chunk_count_of compute_etag make_object_id
new_metadata hash chunk_size now_id now_ms req = record {
  object_id = make_object_id req.bucket req.key now_id;
  bucket = req.bucket;
  key = req.key;
  size_bytes = length req.data_bytes;
  chunk_count = chunk_count_of chunk_size (length req.data_bytes);
  chunk_size_bytes = chunk_size;
  content_type = req.content_type;
  etag = compute_etag hash req.data_bytes;
  created_at_epoch_ms = now_ms;
  updated_at_epoch_ms = now_ms;
  state = committed;
}

abbrev pub put_error : Bytes → PutObjectResult
put_error e = record {
  ok = false;
  error = e;
  object_id = [];
  size_bytes = 0;
  chunk_count = 0;
  etag = [];
}

abbrev pub put_done : ObjectMetadata → PutObjectResult
put_done m = record {
  ok = true;
  error = [];
  object_id = m.object_id;
  size_bytes = m.size_bytes;
  chunk_count = m.chunk_count;
  etag = m.etag;
}

abbrev pub get_error : Bytes → ObjectMetadata → GetObjectResult
get_error e m = record { found = false; error = e; metadata = m; data_bytes = [] }

abbrev delete_error : Bytes → DeleteObjectResult
delete_error e = record { ok = false; error = e }

-- What a look at the metadata of an object finds.
pub data Fetched : Type 0 where
  absent unreadable : Fetched
  found : ObjectMetadata → Fetched

abbrev pub decoded : Option ObjectMetadata → Fetched
decoded none = unreadable
decoded (some m) = found m

abbrev pub fetched : Option Bytes → Fetched
fetched none = absent
fetched (some raw) = decoded (deserialize_metadata raw)

-- How the reading of the chunks ends: at an index that is missing, or with the data.
pub data Reading : Type 0 where
  missing : ℕ → Reading
  whole : Bytes → Reading

module _ {S : Type 0} (api : KvApi S) where
  unfoldable pub bucket_exists : Bytes → S → Bool
  unfolding bucket_meta_key
  bucket_exists bucket s =
      if is_nil bucket then false else is_some (api.get (bucket_meta_key bucket) s)

  unfoldable pub create_bucket : ℕ → Bytes → S → S × Bool
  unfolding bucket_meta_key serialize_bucket_meta
  create_bucket now bucket s =
      if is_nil bucket
      then (s, false)
      else if is_some (api.get (bucket_meta_key bucket) s)
      then (s, true)
      else (
        api.put (bucket_meta_key bucket)
            (serialize_bucket_meta (record { name = bucket; created_at_epoch_ms = now })) s,
        true,
      )

  -- The loop over the chunks from `i`, with this many left.
  unfoldable pub write_chunks : ℕ → Bytes → Bytes → ℕ → ℕ → S → S
  unfolding chunk_key chunk_at
  write_chunks chunk_size id bytes zero i s = s
  write_chunks chunk_size id bytes (suc left) i s =
      write_chunks chunk_size id bytes left (i + 1)
        (api.put (chunk_key id i) (chunk_at chunk_size bytes i) s)

  -- The chunks, then the metadata, then the index entry.
  unfoldable pub write_object : ObjectMetadata → Bytes → S → S
  unfolding write_chunks object_meta_key bucket_index_key serialize_metadata
  write_object m bytes s =
      let chunks = write_chunks m.chunk_size_bytes m.object_id bytes m.chunk_count 0 s in
      let with_meta = api.put (object_meta_key m.bucket m.key) (serialize_metadata m) chunks in
      api.put (bucket_index_key m.bucket m.key) m.object_id with_meta

  unfoldable pub put_object : (Bytes → ℕ) → ℕ → ℕ → ℕ → PutObjectRequest → S → S × PutObjectResult
  unfolding bucket_exists new_metadata write_object
  put_object hash chunk_size now_id now_ms req s =
      let m = new_metadata hash chunk_size now_id now_ms req in
      let flushed = api.flush_wal (write_object m req.data_bytes s) in
      if is_nil req.bucket
      then (s, put_error (codes "bucket is empty"))
      else if is_nil req.key
      then (s, put_error (codes "object key is empty"))
      else if not (bucket_exists req.bucket s)
      then (s, put_error (codes "bucket does not exist"))
      else if not flushed.1
      then (flushed.0, put_error (codes "failed to flush WAL"))
      else (flushed.0, put_done m)

  unfoldable pub fetch : Bytes → Bytes → S → Fetched
  unfolding object_meta_key deserialize_metadata
  fetch bucket key s = fetched (api.get (object_meta_key bucket key) s)

  -- The loop over the chunks from `i`, with this many left, and what it has read.
  unfoldable pub read_chunks : Bytes → ℕ → ℕ → Bytes → S → Reading
  unfolding chunk_key
  read_chunks id zero i bytes s = whole bytes
  read_chunks id (suc left) i bytes s = elim (api.get (chunk_key id i) s) [
    | none ↦ missing i
    | some chunk ↦ read_chunks id left (i + 1) (bytes ++ chunk) s
  ]

  abbrev pub read_result : ObjectMetadata → Reading → GetObjectResult
  read_result m (missing i) = get_error (codes "missing object chunk at index " ++ print_uint i) m
  read_result m (whole bytes) = record {
    found = true;
    error = [];
    metadata = m;
    data_bytes = bytes;
  }

  abbrev pub get_fetched : Fetched → S → GetObjectResult
  get_fetched absent s = get_error (codes "object metadata not found") no_metadata
  get_fetched unreadable s = get_error (codes "failed to deserialize object metadata") no_metadata
  get_fetched (found m) s =
      let reading = read_chunks m.object_id m.chunk_count 0 [] s in
      if is_deleted m.state
      then get_error (codes "object is deleted") no_metadata
      else read_result m reading

  unfoldable pub get_object : Bytes → Bytes → S → GetObjectResult
  unfolding fetch read_chunks
  get_object bucket key s = get_fetched (fetch bucket key s) s

  abbrev pub delete_fetched : ℕ → Bytes → Bytes → Fetched → S → S × DeleteObjectResult
  delete_fetched now bucket key absent s = (s, delete_error (codes "object metadata not found"))
  delete_fetched now bucket key unreadable s =
      (s, delete_error (codes "failed to deserialize object metadata"))
  delete_fetched now bucket key (found m) s =
      let marked : ObjectMetadata = record m { state = deleted; updated_at_epoch_ms = now } in
      let with_meta = api.put (object_meta_key bucket key) (serialize_metadata marked) s in
      let flushed = api.flush_wal (api.del (bucket_index_key bucket key) with_meta).0 in
      if not flushed.1
      then (flushed.0, delete_error (codes "failed to flush WAL"))
      else (flushed.0, record { ok = true; error = [] })

  unfoldable pub delete_object : ℕ → Bytes → Bytes → S → S × DeleteObjectResult
  unfolding fetch
  delete_object now bucket key s = delete_fetched now bucket key (fetch bucket key s) s
