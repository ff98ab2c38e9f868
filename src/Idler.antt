-- ===== src/Idler.antt =====
-- internal/handlers/idler: the two idling processes.
pub mod Config
pub mod Helpers
pub mod Checks
pub mod Patches
pub mod Service
pub mod Exec
pub mod Cli
