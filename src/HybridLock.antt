-- ===== src/HybridLock.antt =====
-- speedysvc/hybrid_lock/linux/HybridLock.c: the class HybridLock, a function to each C function,
-- split at its branches. The proofs are in the children named for what they prove.
pub mod Object
pub mod Clock
pub mod InitMmap
pub mod Destroy
pub mod Value
pub mod Unlock
pub mod Lock
pub mod Create
pub mod Except
pub mod Caught
pub mod Classes
pub mod Python
pub mod Refusal
pub mod Spin
pub mod Acquire
pub mod Progress
pub mod Release
pub mod RoundTrip
pub mod CleanedOnce
pub mod Cleanup
pub mod Opening
