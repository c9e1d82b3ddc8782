-- ===== src/Audit.antt =====
-- The audit service (services/audit): an append-only log whose rows are chained by hashes.
pub mod HashChain
pub mod Repository
pub mod Chain
pub mod Tamper
mod Tests
