-- ===== src/Platform.antt =====
-- The platform's tenants: backend/app/services/platform.
pub mod Provisioning
mod Tests
