-- ===== src/Model.antt =====
-- internal/model: the result schema, which every other part reads.
pub mod Enums
pub mod Request
pub mod Result
pub mod Reasons
pub mod Confidence
pub mod Domains
pub mod Aggregate
