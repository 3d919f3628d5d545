-- ===== src/Examples.antt =====
-- The theorems at concrete inputs.
pub mod Scans
pub mod Aggregate
pub mod Diff
pub mod Hosts
pub mod Robots
pub mod Share
pub mod Adhoc
pub mod Select
pub mod Store
pub mod Baselines
pub mod Flap
pub mod Confidence
pub mod Daemon
pub mod Notify
