-- ===== src/Wal.antt =====
-- include/aether/wal and src/wal: records, checksums, the writer and the reader of the log.
pub mod Record
pub mod Codec
pub mod Checksum
pub mod Message
pub mod Writer
pub mod Reader
pub mod Log
