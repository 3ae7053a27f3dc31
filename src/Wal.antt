-- ===== src/Wal.antt =====
-- crates/stroma-core/src/wal.rs: the framed write-ahead log.
pub mod Bytes
pub mod Words
pub mod Codec
pub mod RoundTrip
pub mod Recover
pub mod Frames
pub mod Committed
