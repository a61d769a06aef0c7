-- ===== src/ObjectStore/Types.antt =====
-- The records of include/kv/object_store_types.h. `chunks` of ObjectMetadata and its type, which
-- nothing sets or reads, are left out.
use veri_store.Common.{ℕ, zero, suc, ◌+◌, Bool, List, [], Bytes, codes}

-- `ObjectState`: a byte that is none of the three can be read from a text.
pub data ObjectState : Type 0 where
  pending committed deleted : ObjectState
  other : ℕ → ObjectState

abbrev pub state_code : ObjectState → ℕ
state_code pending = 0
state_code committed = 1
state_code deleted = 2
state_code (other n) = n

abbrev pub state_of : ℕ → ObjectState
state_of zero = pending
state_of (suc zero) = committed
state_of (suc (suc zero)) = deleted
state_of (suc (suc (suc n))) = other (n + 3)

pub record BucketMetadata : Type 0 where
  pub name : Bytes
  pub created_at_epoch_ms : ℕ

pub record ObjectMetadata : Type 0 where
  pub object_id : Bytes
  pub bucket : Bytes
  pub key : Bytes
  pub size_bytes : ℕ
  pub chunk_count : ℕ
  pub chunk_size_bytes : ℕ
  pub content_type : Bytes
  pub etag : Bytes
  pub created_at_epoch_ms : ℕ
  pub updated_at_epoch_ms : ℕ
  pub state : ObjectState

-- The fields as `ObjectMetadata` starts with them.
abbrev pub no_metadata : ObjectMetadata
no_metadata = record {
  object_id = [];
  bucket = [];
  key = [];
  size_bytes = 0;
  chunk_count = 0;
  chunk_size_bytes = 0;
  content_type = codes "application/octet-stream";
  etag = [];
  created_at_epoch_ms = 0;
  updated_at_epoch_ms = 0;
  state = committed;
}

pub record PutObjectRequest : Type 0 where
  pub bucket : Bytes
  pub key : Bytes
  pub data_bytes : Bytes
  pub content_type : Bytes

pub record PutObjectResult : Type 0 where
  pub ok : Bool
  pub error : Bytes
  pub object_id : Bytes
  pub size_bytes : ℕ
  pub chunk_count : ℕ
  pub etag : Bytes

pub record GetObjectResult : Type 0 where
  pub found : Bool
  pub error : Bytes
  pub metadata : ObjectMetadata
  pub data_bytes : Bytes

pub record ObjectListEntry : Type 0 where
  pub key : Bytes
  pub size_bytes : ℕ
  pub content_type : Bytes
  pub etag : Bytes
  pub updated_at_epoch_ms : ℕ

pub record ListObjectsResult : Type 0 where
  pub ok : Bool
  pub error : Bytes
  pub objects : List ObjectListEntry

pub record DeleteObjectResult : Type 0 where
  pub ok : Bool
  pub error : Bytes
