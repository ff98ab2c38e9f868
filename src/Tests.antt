-- ===== src/Tests.antt =====
-- Runs of the model on a cluster in memory.
pub mod Memory
pub mod Samples
pub mod Idling
pub mod Loops
pub mod Ages
pub mod Returning
pub mod Unidling
pub mod Handling
pub mod Reconciling
pub mod Single
pub mod Starting
pub mod Restoring
pub mod Again
pub mod Serving
