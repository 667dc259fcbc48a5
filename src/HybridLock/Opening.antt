-- ===== src/HybridLock/Opening.antt =====
-- The constructor against a specification on the shared state alone.
pub mod Spec
pub mod Attach
pub mod Modes
pub mod Overwrite
pub mod Refinement
pub mod Sharing
pub mod NullSemaphore
pub mod Mapping
pub mod Semaphores
pub mod Failing
