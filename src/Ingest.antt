-- ===== src/Ingest.antt =====
-- Uploads: backend/app/services/ingest.
pub mod Upload
pub mod Drift
pub mod Errors
pub mod Scanner
pub mod Inference
pub mod Versions
pub mod Pipeline
pub mod Samples
mod Tests
