-- ===== src/Protocol.antt =====
-- The requests of a client and the answers of a server over shared memory, speedysvc/client_server/shared_memory:
-- SHMBase.py, shared_params.py, SHMResourceManager.py, SHMClient.py and SHMServer.py.
pub mod Bytes
pub mod Frames
pub mod Memory
pub mod Client
pub mod Server
pub mod Sizes
pub mod Fits
pub mod Exchange
pub mod Sends
pub mod Answers
pub mod Served
pub mod Session
