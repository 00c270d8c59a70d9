-- ===== src/Notifications.antt =====
-- What users are told: backend/app/services/notifications.
pub mod InApp
pub mod Webhook
mod Tests
