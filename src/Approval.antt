-- ===== src/Approval.antt =====
-- The approval service (services/approval): request, decision, dry-run execution, rollback.
pub mod Records
pub mod Monad
pub mod AuditClient
pub mod Adapters
pub mod Repository
pub mod Lifecycle
pub mod System
pub mod Service
mod Tests
