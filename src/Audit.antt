-- ===== src/Audit.antt =====
-- src/service/audit_service.rs and src/repository/sqlite_audit_repository.rs: the audit trail.
pub mod Repository
pub mod Prune
mod Tests
