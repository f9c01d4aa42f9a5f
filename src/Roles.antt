-- ===== src/Roles.antt =====
-- src/models/roles.rs, and the roles and seats of a principal in src/service/roles_service.rs and
-- src/cedar/enforcement.rs.
pub mod Membership
pub mod Service
mod Tests
