-- ===== src/Case.antt =====
-- The case service (services/case_management): cases, the alerts that landed, and feedback.
pub mod Records
pub mod Repository
pub mod Service
pub mod Merge
pub mod Invariant
mod Tests
