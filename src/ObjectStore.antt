-- ===== src/ObjectStore.antt =====
-- include/kv/object_store.h, include/kv/object_store_types.h, include/kv/object_store_key_codec.h and
-- src/object_store.cpp: objects in buckets, cut into chunks, over the interface of a key-value store.
pub mod Types
pub mod KeyCodec
pub mod KvApi
pub mod Metadata
pub mod Objects
pub mod Listing
pub mod Chunks
pub mod ChunkSizes
pub mod ReadBack
pub mod Isolation
pub mod Buckets
pub mod Collect
pub mod Races
pub mod Listed
mod Tests
