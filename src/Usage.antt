-- ===== src/Usage.antt =====
-- Usage events: backend/app/repositories/usage_event_repository.py,
-- backend/app/services/analytics/rate_limit_service.py and
-- backend/app/services/platform/tenant_rate_limit_service.py.
pub mod Rollup
pub mod Limits
mod Tests
