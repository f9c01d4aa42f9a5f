-- ===== src/Cedar.antt =====
-- src/cedar/entity.rs and src/cedar/enforcement.rs: what the policies see of assets and of
-- callers, and how
-- their decisions are enforced.
pub mod Entity
pub mod Filter
pub mod Resolved
mod Tests
