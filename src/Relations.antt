-- ===== src/Relations.antt =====
-- src/repository/sqlite_relation_repository.rs and src/service/relation_service.rs: the relation
-- graph.
pub mod Graph
pub mod Cycle
pub mod Traversal
pub mod Repository
pub mod Service
pub mod Acyclic
pub mod Removal
mod Tests
