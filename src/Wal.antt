-- ===== src/Wal.antt =====
-- include/kv/wal.h and src/wal.cpp: the write-ahead log. The file is its list of bytes, read and
-- written on a little-endian machine. A descriptor is open or not; what `write` and `fsync` do with
-- the buffer is an argument of `flush`.
pub mod Crc
pub mod Record
pub mod File
mod Tests
