-- ===== src/SsTable.antt =====
-- include/kv/sstable.h, src/sstable.cpp, src/sstable_index.cpp, src/sstable_reader.cpp and
-- src/compactor.cpp: tables on disk as lines of text, with the sparse index and the Bloom filter that
-- a reader builds. A file is its bytes, or `none` if it cannot be opened.
pub mod Rows
pub mod Index
pub mod Reader
pub mod Compactor
pub mod RoundTrip
pub mod Scan
pub mod Merge
mod Tests
