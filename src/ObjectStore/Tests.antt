-- ===== src/ObjectStore/Tests.antt =====
-- A small store, and the theorems about objects applied there.
use veri_store.Common.{
  min, ◌-◌, ◌<◌, ℕ, ◌*◌, ◌≡◌, ◌≢◌, ◌↔◌, refl, sym, ap, ◌∙◌, Bool, true, false, none, some, [], ◌∷◌,
  ◌++◌, Bytes, Dict, codes, length, bytes_eq, bytes_lt, find, if◌then◌else◌, arith, In,
}
use veri_store.Text.{print_uint}
use veri_store.Wal.File.{healthy, flush}
use veri_store.KvStore.{KvStore, get, flush_wal}
use veri_store.KvStore.Api.{IsOpen, kv_api, kv_api-Laws}
use veri_store.ObjectStore.Types.{committed, ObjectMetadata, PutObjectRequest, no_metadata}
use veri_store.ObjectStore.KeyCodec.{colon, object_meta_key, bucket_meta_key}
use veri_store.ObjectStore.KvApi.{KvApi, Laws, StartsWith}
use veri_store.ObjectStore.Metadata.{
  serialize_metadata, deserialize_metadata, Keepable, deserialize-serialize_metadata,
}
use veri_store.ObjectStore.Objects.{
  chunk_count_of, make_object_id, new_metadata, bucket_exists, put_object, Fetched, found, fetched,
  fetch, get_error, put_done, chunk_at, get_object, delete_object,
}
use veri_store.ObjectStore.Listing.{list_entry, list_objects, garbage_collect_chunks}
use veri_store.ObjectStore.ChunkSizes.{chunk_at-bounds}
use veri_store.ObjectStore.ReadBack.{Storable, get_object-put_object}
use veri_store.ObjectStore.Buckets.{buckets_collide}
use veri_store.ObjectStore.Isolation.{get_object-put_object_other, get_object-delete_object}
use veri_store.ObjectStore.Collect.{get_object-garbage_collect}
use veri_store.ObjectStore.Races.{raced_write, raced_write-IsReady, raced_put, collection_loses_put}
use veri_store.ObjectStore.Listed.{Listed, list_objects_iff}

abbrev api : KvApi KvStore
api = kv_api 48 (λ s. healthy)

laws : Laws api IsOpen
laws = kv_api-Laws 48 (λ s. healthy)

abbrev store_of : Dict Bytes → KvStore
store_of map = record {
  map = map;
  memtable = record { entries = []; approximate_size_bytes = 0 };
  immutable_memtable = none;
  sstable_paths = [];
  flush_worker = record { tasks = []; completions = []; started = true; stopping = false };
  next_sstable_id = 0;
  manifest = record { path = codes "M" };
  manifest_path = codes "M";
  wal = record { is_open = true; file = []; buffer = []; last_good_offset = 0 };
  seq = 1;
  group_commit_every = 5;
  opened = true;
}

abbrev metadata : ObjectMetadata
metadata = record {
  object_id = codes "o";
  bucket = codes "b";
  key = codes "k";
  size_bytes = 2;
  chunk_count = 1;
  chunk_size_bytes = 4;
  content_type = codes "t";
  etag = codes "e";
  created_at_epoch_ms = 7;
  updated_at_epoch_ms = 7;
  state = committed;
}

-- A bucket with one object, and a chunk that belongs to none.
abbrev store : KvStore
store = store_of (
    (codes "bucket:b", codes "b")
    ∷ (codes "bucketidx:b:k", codes "o")
    ∷ (codes "objchunk:o:0", codes "hi")
    ∷ (codes "objchunk:x:0", codes "no")
    ∷ (codes "objmeta:b:k", serialize_metadata metadata)
    ∷ [])

metadata-Keepable : Keepable metadata
metadata-Keepable = record {
  id_tabless = (ground arith, tt);
  bucket_tabless = (ground arith, tt);
  key_tabless = (ground arith, tt);
  type_tabless = (ground arith, tt);
  etag_tabless = (ground arith, tt);
  size_fits = omega arith;
  count_fits = omega arith;
  chunk_fits = omega arith;
  created_fits = omega arith;
  updated_fits = omega arith;
  good_state = (omega arith, refl);
}

abbrev request : PutObjectRequest
request = record {
  bucket = codes "b";
  key = codes "l";
  content_type = codes "t";
  data_bytes = codes "hello";
}

abbrev hash : Bytes → ℕ
hash bytes = length bytes * 1000

request-Storable : Storable 2 9 request
request-Storable = record {
  bucket_given = λ e. cc;
  key_given = λ e. cc;
  bucket_tabless = (ground arith, tt);
  key_tabless = (ground arith, tt);
  type_tabless = (ground arith, tt);
  countable = record { positive = omega arith; total_fits = omega arith; count_fits = omega arith };
  chunk_fits = omega arith;
  now_fits = omega arith;
}

bucket_there : bucket_exists api (codes "b") store ≡ true
unfolding bucket_exists bucket_meta_key get find bytes_eq bytes_lt
bucket_there = refl

object_there : fetch api (codes "b") (codes "k") store ≡ found metadata
unfolding fetch object_meta_key get find bytes_eq bytes_lt
object_there = rw (deserialize-serialize_metadata metadata metadata-Keepable) refl

get_object-put_object_example :
    get_object api (codes "b") (codes "l") (put_object api hash 2 3 9 request store).0 ≡ record {
      found = true;
      error = [];
      metadata = new_metadata hash 2 3 9 request;
      data_bytes = codes "hello";
    }
get_object-put_object_example =
    get_object-put_object api IsOpen laws hash 2 3 9 request store (refl, refl) request-Storable
      bucket_there

get_object-garbage_collect_example :
    get_object api (codes "b") (codes "k") (garbage_collect_chunks api store).0
    ≡ get_object api (codes "b") (codes "k") store
get_object-garbage_collect_example =
    get_object-garbage_collect api IsOpen laws (codes "b") (codes "k") metadata store (refl, refl)
      object_there refl

get_object-delete_object_example :
    get_object api (codes "b") (codes "k") (delete_object api 8 (codes "b") (codes "k") store).0
    ≡ get_error (codes "object is deleted") no_metadata
get_object-delete_object_example =
    get_object-delete_object api IsOpen laws 8 (codes "b") (codes "k") metadata store (refl, refl)
      object_there metadata-Keepable (omega arith)

id_in : Fetched → Bytes
id_in (found m) = m.object_id
id_in _ = []

new_key : object_meta_key (codes "b") (codes "l") ≢ object_meta_key (codes "b") (codes "k")
unfolding object_meta_key
new_key e = ground (arith, e)

new_id :
    (n : ObjectMetadata)
    → fetch api (codes "b") (codes "k") store ≡ found n
    → make_object_id (codes "b") (codes "l") 3 ≢ n.object_id
unfolding make_object_id id_in
new_id n f e = absurd (ground (arith, e ∙ ap id_in (sym f ∙ object_there)))

get_object-put_object_other_example :
    get_object api (codes "b") (codes "k") (put_object api hash 2 3 9 request store).0
    ≡ get_object api (codes "b") (codes "k") store
get_object-put_object_other_example =
    get_object-put_object_other api IsOpen laws hash 2 3 9 request (codes "b") (codes "k") store
      (refl, refl) new_key new_id

list_objects_iff_example :
    In (list_entry metadata) (list_objects api (codes "b") (codes "k") store).objects
    ↔ Listed api (codes "b") (codes "k") store (list_entry metadata)
list_objects_iff_example =
    list_objects_iff api IsOpen laws (codes "b") (codes "k") store (list_entry metadata) (λ n. cc)
      bucket_there

-- A bucket without objects.
abbrev empty_bucket : KvStore
empty_bucket = store_of ((codes "bucket:b", codes "b") ∷ [])

empty_bucket_there : bucket_exists api (codes "b") empty_bucket ≡ true
unfolding bucket_exists bucket_meta_key get find bytes_eq bytes_lt
empty_bucket_there = refl

-- A bucket's entry is no metadata of an object.
no_bucket :
    (b : Bool) (m : ObjectMetadata) → ¬ (fetched (if b then some (codes "b") else none) ≡ found m)
unfolding deserialize_metadata
no_bucket true m e = cc
no_bucket false m e = cc

no_metadata_there :
    (key : Bytes) (n : ObjectMetadata)
    → StartsWith (codes "objmeta:") key
    → fetched (api.get key empty_bucket) ≡ found n
    → n.state ≡ committed
    → n.object_id ≢ make_object_id (codes "b") (codes "l") 3
unfolding get find
no_metadata_there key n p f c = absurd (no_bucket (bytes_eq (codes "bucket:b") key) n f)

flush_succeeds : (s : KvStore) → IsOpen s → (api.flush_wal s).1 ≡ true
unfolding flush_wal flush
flush_succeeds s (o, w) = ground (arith, w)

collection_loses_put_example :
    ((raced_put api hash 2 3 9 request empty_bucket).1 ≡ put_done (new_metadata hash 2 3 9 request))
    × (get_object api (codes "b") (codes "l") (raced_put api hash 2 3 9 request empty_bucket).0
        ≡ get_error
            (codes "missing object chunk at index " ++ print_uint 0)
            (new_metadata hash 2 3 9 request))
collection_loses_put_example =
    collection_loses_put api IsOpen laws hash 2 3 9 request empty_bucket (refl, refl)
      request-Storable empty_bucket_there (λ e. cc) no_metadata_there
      (flush_succeeds
        (raced_write api (new_metadata hash 2 3 9 request) request.data_bytes empty_bucket)
        (raced_write-IsReady api IsOpen laws (new_metadata hash 2 3 9 request) request.data_bytes
          empty_bucket (refl, refl)))

abbrev joined_request : PutObjectRequest
joined_request = record request { bucket = codes "a:b" }

joined_there :
    bucket_exists api (codes "a:b") (store_of ((codes "bucket:a:b", codes "") ∷ [])) ≡ true
unfolding bucket_exists bucket_meta_key get find bytes_eq bytes_lt
joined_there = refl

joined-Storable : Storable 2 9 joined_request
joined-Storable = record {
  bucket_given = λ e. cc;
  key_given = λ e. cc;
  bucket_tabless = (ground arith, (ground arith, (ground arith, tt)));
  key_tabless = (ground arith, tt);
  type_tabless = (ground arith, tt);
  countable = record { positive = omega arith; total_fits = omega arith; count_fits = omega arith };
  chunk_fits = omega arith;
  now_fits = omega arith;
}

buckets_collide_example :
    get_object api
      (codes "a")
      (codes "b" ++ colon ∷ codes "l")
      (put_object api hash 2 3 9 joined_request (store_of ((codes "bucket:a:b", codes "") ∷ []))).0
    ≡ record {
      found = true;
      error = [];
      metadata = new_metadata hash 2 3 9 joined_request;
      data_bytes = codes "hello";
    }
buckets_collide_example =
    buckets_collide api IsOpen laws hash 2 3 9 (codes "a") (codes "b") joined_request
      (store_of ((codes "bucket:a:b", codes "") ∷ [])) (refl, refl) refl joined-Storable
      joined_there

chunk_at-bounds_example :
    (0 < length (chunk_at 2 (codes "hello") 2))
    × (length (chunk_at 2 (codes "hello") 2) ≡ min 2 (length (codes "hello") - 2 * 2))
chunk_at-bounds_example =
    chunk_at-bounds 2 (codes "hello") 2
      (record { positive = omega arith; total_fits = omega arith; count_fits = omega arith })
      (unfold chunk_count_of in omega arith)
