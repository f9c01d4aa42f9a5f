-- ===== src/Tenants.antt =====
-- src/tenant.rs: the pool manager of the instances, over the directory tree of their databases.
pub mod Tree
pub mod Manager
pub mod Deletion
pub mod Databases
pub mod Coherent
pub mod Removed
pub mod Pools
pub mod Deleted
pub mod Provisioned
pub mod Tests
