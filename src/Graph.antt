-- ===== src/Graph.antt =====
-- The entity graph: the file-backed store (packages/common/aegis_common/graphstore/memory.py).
pub mod Store
pub mod Search
pub mod Queries
pub mod Builder
pub mod Statistics
mod Tests
