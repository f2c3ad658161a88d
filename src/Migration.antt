-- ===== src/Migration.antt =====
-- The migration of the port: internal/migration.
pub mod World
pub mod Targets
pub mod Journal
pub mod Recovery
pub mod Transaction
pub mod Rollback
pub mod Deferred
pub mod Rules
mod Tests
