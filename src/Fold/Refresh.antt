-- ===== src/Fold/Refresh.antt =====
-- crates/stroma-core/src/fold.rs, `observe_key_into` and `observe_node_into` as an incremental
-- refresh of `observe`.
pub mod Entry
pub mod Writers
pub mod Shown
pub mod Counts
pub mod Values
pub mod Indexed
pub mod Nodes
pub mod Loops
pub mod Observed
pub mod Touched
