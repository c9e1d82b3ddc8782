-- ===== src/Detection.antt =====
-- The detection service (services/detection): the correlation of events.
pub mod Correlation
pub mod Dedup
pub mod Sigma
pub mod Ensemble
pub mod Temporal
pub mod GraphFeatures
pub mod Pipeline
mod Tests
