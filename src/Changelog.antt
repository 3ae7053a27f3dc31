-- ===== src/Changelog.antt =====
-- crates/stroma-core/src/changelog.rs: the append-only log. A disk is the bytes of the log file,
-- none where there is no file; read and write errors are not modelled.
pub mod Ops
pub mod Appends
pub mod Replay
pub mod Framing
pub mod Soundness
pub mod Durability
pub mod Delivery
pub mod Reopen
pub mod Compaction
