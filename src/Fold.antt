-- ===== src/Fold.antt =====
-- crates/stroma-core/src/fold.rs: the folded graph state and its operations.
pub mod Keys
pub mod State
pub mod Apply
mod Change
pub mod Parts
mod Stores
pub mod Commute
pub mod Convergence
pub mod Total
pub mod Observe
pub mod Refresh
pub mod Elements
pub mod Gc
pub mod Tags
