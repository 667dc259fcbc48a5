-- ===== src/Network.antt =====
-- Requests and answers over a TCP connection: speedysvc/client_server/network.
pub mod Stream
pub mod Messages
pub mod Received
pub mod Answered
