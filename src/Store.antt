-- ===== src/Store.antt =====
-- internal/store: retention, with what it removes from the artifact bucket, and what scans are compared
-- with.
pub mod Select
pub mod Index
pub mod Collect
pub mod Prune
pub mod Refs
pub mod Sweep
pub mod Baselines
pub mod Comparison
