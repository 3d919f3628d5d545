-- ===== src/Diff.antt =====
-- internal/diff: the comparison of two scan results.
pub mod Change
pub mod Rules
pub mod HostList
pub mod Maps
pub mod Differ
pub mod Effects
pub mod Compare
pub mod Loops
pub mod Order
pub mod Justified
pub mod Extends
pub mod Complete
pub mod Removed
pub mod Severity
pub mod Hosts
pub mod Itself
pub mod Flap
