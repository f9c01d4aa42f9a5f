-- ===== src/Groups.antt =====
-- src/service/group_service.rs and src/repository/sqlite_group_repository.rs: groups and their
-- members.
pub mod Repository
pub mod Service
mod Tests
