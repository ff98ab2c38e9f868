-- ===== src/Unidler.antt =====
-- internal/handlers/unidler: the default backend that answers requests and scales environments up.
pub mod Config
pub mod Helpers
pub mod Restrictions
pub mod Checks
pub mod Unidle
pub mod Response
pub mod Requests
pub mod Handler
pub mod Server
pub mod Locking
