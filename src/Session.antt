-- ===== src/Session.antt =====
-- A database session of one tenant: the rows that the services share, and the steps that use them.
mod Model
pub mod Events
unfoldable pub use Model.*
