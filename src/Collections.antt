-- ===== src/Collections.antt =====
-- src/repository/sqlite_collection_repository.rs and src/service/collection_service.rs: named
-- collections of assets.
pub mod Repository
pub mod Service
pub mod Listing
pub mod Members
mod Tests
