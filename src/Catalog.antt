-- ===== src/Catalog.antt =====
-- The catalogue: the dataset row of backend/app/db/models/tenant.py, its vocabularies, and the
-- services that read it.
mod Model
pub mod Quality
pub mod Repository
mod Tests
unfoldable pub use Model.*
