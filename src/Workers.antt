-- ===== src/Workers.antt =====
-- The Celery workers: backend/app/workers/tenant_runner.py, and tasks of
-- backend/app/workers/tasks/tasks.py.
pub mod Tenants
pub mod Uploads
mod Tests
