-- ===== src/ObjectStore/Listing.antt =====
-- `ListObjects` and `GarbageCollectChunks`.
use veri_store.Common.{
  ℕ, ◌+◌, ◌-◌, Bool, true, false, not, Option, none, some, List, [], ◌∷◌, ◌++◌, Bytes, codes,
  length, take, drop, ltb, leb, bytes_eq, ◌==◌, if◌then◌else◌,
}
use veri_store.ObjectStore.Types.{
  ObjectState, committed, ObjectMetadata, ObjectListEntry, ListObjectsResult,
}
use veri_store.ObjectStore.KeyCodec.{colon, bucket_index_key}
use veri_store.ObjectStore.KvApi.{KvApi}
use veri_store.ObjectStore.Objects.{
  is_nil, is_deleted, Fetched, absent, unreadable, found, fetched, bucket_exists, fetch,
}

abbrev pub list_entry : ObjectMetadata → ObjectListEntry
list_entry m = record {
  key = m.key;
  size_bytes = m.size_bytes;
  content_type = m.content_type;
  etag = m.etag;
  updated_at_epoch_ms = m.updated_at_epoch_ms;
}

-- `continue`, or one entry more.
abbrev pub add_entry : Fetched → List ObjectListEntry → List ObjectListEntry
add_entry absent rest = rest
add_entry unreadable rest = rest
add_entry (found m) rest = if is_deleted m.state then rest else list_entry m ∷ rest

abbrev list_error : Bytes → ListObjectsResult
list_error e = record { ok = false; error = e; objects = [] }

-- `rfind(':')`
unfoldable pub last_colon_at : Bytes → Option ℕ
last_colon_at [] = none
last_colon_at (c ∷ bytes) = elim (last_colon_at bytes) [
  | some i ↦ some (i + 1)
  | none ↦ if c == colon then some 0 else none
]

unfoldable pub member : Bytes → List Bytes → Bool
member k [] = false
member k (j ∷ js) = if bytes_eq j k then true else member k js

abbrev pub is_committed : ObjectState → Bool
is_committed committed = true
is_committed _ = false

abbrev pub reach : Fetched → List Bytes → List Bytes
reach absent ids = ids
reach unreadable ids = ids
reach (found m) ids = if is_committed m.state then m.object_id ∷ ids else ids

abbrev pub chunk_prefix : Bytes
chunk_prefix = codes "objchunk:"

-- The object id in a chunk's key, or `continue`.
abbrev pub id_between : Bytes → Option ℕ → Option Bytes
id_between k none = none
id_between k (some last) =
    if leb last (length chunk_prefix)
    then none
    else some (take (last - length chunk_prefix) (drop (length chunk_prefix) k))

unfoldable pub chunk_object_id : Bytes → Option Bytes
unfolding last_colon_at
chunk_object_id k = id_between k (last_colon_at k)

abbrev pub is_garbage : List Bytes → Option Bytes → Bool
is_garbage reachable none = false
is_garbage reachable (some id) = not (member id reachable)

module _ {S : Type 0} (api : KvApi S) where
  -- The loop over the keys of the index.
  unfoldable pub list_entries : Bytes → List Bytes → S → List ObjectListEntry
  unfolding fetch
  list_entries bucket [] s = []
  list_entries bucket (k ∷ ks) s =
      let base = codes "bucketidx:" ++ (bucket ++ colon ∷ []) in
      let rest = list_entries bucket ks s in
      if ltb (length k) (length base)
      then rest
      else add_entry (fetch api bucket (drop (length base) k) s) rest

  unfoldable pub list_objects : Bytes → Bytes → S → ListObjectsResult
  unfolding bucket_exists list_entries bucket_index_key
  list_objects bucket prefix s =
      if is_nil bucket
      then list_error (codes "bucket is empty")
      else if not (bucket_exists api bucket s)
      then list_error (codes "bucket does not exist")
      else record {
        ok = true;
        error = [];
        objects =
            list_entries bucket (api.list_keys_with_prefix (bucket_index_key bucket prefix) s) s;
      }

  -- The first step: the object ids of committed metadata.
  unfoldable pub reachable_ids : List Bytes → S → List Bytes
  reachable_ids [] s = []
  reachable_ids (k ∷ ks) s = reach (fetched (api.get k s)) (reachable_ids ks s)

  -- The second step: the loop over the chunk keys, with the number of chunks deleted.
  unfoldable pub sweep : List Bytes → List Bytes → ℕ → S → S × ℕ
  unfolding chunk_object_id member
  sweep reachable [] n s = (s, n)
  sweep reachable (k ∷ ks) n s =
      let kept = sweep reachable ks n s in
      let removed = api.del k s in
      let after = sweep reachable ks (if removed.1 then n + 1 else n) removed.0 in
      if is_garbage reachable (chunk_object_id k) then after else kept

  unfoldable pub garbage_collect_chunks : S → S × ℕ
  unfolding reachable_ids sweep
  garbage_collect_chunks s =
      let reachable = reachable_ids (api.list_keys_with_prefix (codes "objmeta:") s) s in
      let swept = sweep reachable (api.list_keys_with_prefix chunk_prefix s) 0 s in
      ((api.flush_wal swept.0).0, swept.1)
