-- ===== src/Governance.antt =====
-- The maker-checker workflow: backend/app/services/governance/workflow_service.py,
-- backend/app/repositories/workflow_repository.py, and the endpoint that starts an embargo.
pub mod Transitions
pub mod Service
pub mod Embargo
pub mod Queue
pub mod Runs
mod Tests
