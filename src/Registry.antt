-- ===== src/Registry.antt =====
-- Who takes part in a service: the lists of pids that SHMResourceManager.py keeps, and the threads that a
-- server has for its clients, SHMServer.py.
pub mod Lists
pub mod Sets
pub mod Pids
pub mod Kept
pub mod Methods
pub mod Strays
pub mod Store
pub mod Stored
pub mod Workers
pub mod Steps
pub mod Monitored
pub mod Shutdown
pub mod Told
