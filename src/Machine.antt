-- ===== src/Machine.antt =====
-- The world that speedysvc/hybrid_lock/linux/HybridLock.c runs in: what its process shares with the
-- others, the calls of libc that it makes, and the monad in which its functions are written.
pub mod State
pub mod Flow
pub mod Calls
pub mod Post
