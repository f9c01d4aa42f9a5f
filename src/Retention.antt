-- ===== src/Retention.antt =====
-- The retention policy, and the gates of the maintenance handlers.
pub mod Policy
mod Tests
