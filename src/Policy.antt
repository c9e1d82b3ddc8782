-- ===== src/Policy.antt =====
-- The response policy (services/response_policy/policy_core): which action is recommended.
pub mod Taxonomy
pub mod Objectives
pub mod Bandit
pub mod Recommend
mod Tests
