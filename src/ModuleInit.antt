-- ===== src/ModuleInit.antt =====
-- The initialisation of the extension module, in speedysvc/hybrid_lock/linux/HybridLock.c:
-- __pyx_pymod_exec_HybridLock and what it calls.
pub mod Globals
pub mod Strings
pub mod Exec
pub mod Loaded
pub mod Interpreters
pub mod Creation
