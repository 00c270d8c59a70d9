-- ===== src/Lineage.antt =====
-- The lineage graph: backend/app/repositories/lineage_repository.py and
-- backend/app/services/lineage/lineage_service.py.
mod Tests
pub mod Graph
