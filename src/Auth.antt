-- ===== src/Auth.antt =====
-- Authentication: refresh tokens, API keys, the gateway's forward-auth, rate limits and roles.
pub mod Refresh
pub mod RateLimit
pub mod ApiKeys
pub mod Users
pub mod Gateway
pub mod SessionIndex
pub mod Scim
mod Tests
