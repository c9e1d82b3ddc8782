-- ===== src/Auth.antt =====
-- Roles, identities and the checks that endpoints declare
-- (packages/common/aegis_common/auth/rbac.py and jwt.py).
pub mod Roles
pub mod Web
pub mod Laws
mod Tests
