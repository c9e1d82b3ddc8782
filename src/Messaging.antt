-- ===== src/Messaging.antt =====
-- The sync-mode transport (packages/common/aegis_common/kafka/bus.py) and the store that makes
-- its consumers idempotent (packages/common/aegis_common/idempotency.py).
pub mod Bus
pub mod Idempotency
mod Tests
