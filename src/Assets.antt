-- ===== src/Assets.antt =====
-- src/service/asset_service.rs and src/repository/sqlite_asset_repository.rs: the assets.
pub mod Rows
pub mod Tags
pub mod Birth
pub mod Repository
pub mod Service
pub mod Pages
pub mod Search
pub mod Prune
mod Tests
mod StoreTests
