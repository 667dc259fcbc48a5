-- ===== src/Interleaving.antt =====
-- Several processes that call `lock`, `unlock` and `destroy` of
-- speedysvc/hybrid_lock/linux/HybridLock.c on one lock, a shared access at a time.
pub mod Process
pub mod Sum
pub mod System
pub mod Forward
pub mod Liveness
pub mod Exclusion
pub mod Surrounded
pub mod Waiting
pub mod LockRuns
pub mod ReleaseRuns
pub mod Simulation
