-- ===== src/Gateway.antt =====
-- The gateway (services/frontend_gateway).
pub mod RateLimit
mod Tests
