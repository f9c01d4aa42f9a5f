-- ===== src/Model.antt =====
-- The data that the components share: src/models/*.rs and src/error.rs, the tables of the store,
-- and the
-- world in which an operation runs.
pub mod Error
pub mod Asset
pub mod Relation
pub mod Group
pub mod Audit
pub mod World
pub mod Sample
