-- ===== src/Lib.antt =====
-- PDT: assets, their relations, groups and audit trail, kept in one SQLite store per instance and
-- opened to callers by Cedar policies (the crate under src/).
--
-- The program's parts, and the files that model them (Base has the shared helpers on lists, texts
-- and their order, and the Tests of each part run it on small stores):
--   * Model: src/models/ and src/error.rs as records and data types. Model.World is what outlives
--     a call: a Store holds the tables of one store (migrations/sqlite) and the archive files; a
--     State adds the clock and the supply of uuids; a World adds a schedule of failures.
--     `Exec A` is a call: it takes a world, and answers a value, an error or a panic, with the
--     world after it. Model.World.Hoare has triples for calls, Keeps and Read their two common
--     shapes; Model.World.Transaction is about the statements between BEGIN and COMMIT.
--   * Assets: the look-ups (Rows), the statements that write (Repository), the listing and the
--     search with their cursors (Pages, Search) of src/repository/sqlite_asset_repository.rs; the
--     checks of src/models/tag.rs (Tags); src/service/asset_service.rs: guard_birth_auth_context
--     (Birth), the operations on one asset (Service), prune_candidates and prune (Prune).
--   * Collections: src/repository/sqlite_collection_repository.rs (Repository) and
--     src/service/collection_service.rs (Service).
--   * Relations: src/repository/sqlite_relation_repository.rs (Repository, Graph, Cycle and
--     Traversal) and src/service/relation_service.rs (Service).
--   * Audit: src/repository/sqlite_audit_repository.rs (Repository) and AuditService::audit_prune
--     of src/service/audit_service.rs (Prune), in the phases of the source: count, archive,
--     verify, delete.
--   * Retention: src/service/prune_policy.rs (Policy).
--   * Cedar: src/cedar/entity.rs (Entity); the checks and filters of src/cedar/enforcement.rs
--     (Filter); its checks with the groups of the store and the audited bypass (Resolved).
--   * Groups: src/repository/sqlite_group_repository.rs and src/service/group_service.rs.
--   * Roles: the resolution of src/service/roles_service.rs, the seat look-up and the check of the
--     writes of seats of src/cedar/enforcement.rs, with src/models/roles.rs (Membership, Service).
--   * Tenants: TenantPoolManager of src/tenant.rs, over a tree of directories (Tree, Manager and
--     Deletion).
--   * Maintenance: the gates and the prunes of src/handlers/maintenance.rs.
-- The services call the repositories, and write the entries of the trail by Audit.Repository; the
-- deletion of an asset reaches its relations and the collections; Cedar reads the groups of the
-- store, and logs the bypass in the trail.
--
-- What the model takes as it is:
--   * Each query and each file operation may fail, by the schedule; a failed one changes nothing
--     else. A statement that violates a constraint answers a database error. The calls run one
--     after the other: no other request writes the store between the statements of a call.
--   * Times are nanoseconds from the first instant that chrono represents; RFC 3339 texts of one
--     offset compare as their times, and a cursor is the time and the id of a row.
--     `Utc::now` never goes back. Uuid::new_v4 is a supply of texts.
--   * A SELECT without ORDER BY answers the rows in the order of the table. The reads of the cycle
--     search are one read of the relations. A row counts as written to the archive when its write
--     succeeds; the flush and the fsync before the delete are steps that may fail.
--   * The texts of errors, the warnings and the logs are left out. JSON bodies of audit entries are
--     the constructors of Changes; the number of days and the other integers are naturals.
--   * A transaction that fails leaves the store as it was. The full-text match of SQLite, the
--     Unicode class of alphanumeric characters and the uuid check are parameters. An opening of an
--     instance's database has four ends: the services, or an error before the directory is made,
--     before the database is connected, or after that; a removal takes all of a directory or a
--     part. Whether the root or a workspace can be read does not change within a call.
--   * pep and Cedar are parameters: whether a base entity, the uids and the request are built,
--     whether the text of a uid parses, and the decision on the attributes. The batched filter
--     relies on two things: ReadsBands, that policies read no uid of a resource and no order of a
--     set, which holds of src/policies; and BuildsAlike, that the requests for the listed assets
--     of one band are all built or fail alike, of which the code has no check.
--
-- Fuel: the cycle search and the search for descendants have one round more than there are
-- relations, which is enough since each round takes an asset off the queue that was put there once.
-- The archive walk has one round more than there are candidates, and the walk of the candidates of
-- the asset prune one more than there are assets: every page but the last is full. Stripping a
-- prefix has as many rounds as the text has characters.
--
-- Not modelled: the MongoDB repositories, the directory service, authentication, the backfills, the
-- other HTTP handlers and the start of the program. The loading of the policy file is an input of
-- the prunes' handlers, with the environment.
pub mod Base
pub mod Model
pub mod Assets
pub mod Collections
pub mod Relations
pub mod Audit
pub mod Retention
pub mod Cedar
pub mod Groups
pub mod Roles
pub mod Tenants
pub mod Maintenance
