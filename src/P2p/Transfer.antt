-- ===== src/P2p/Transfer.antt =====
-- fyles_service/p2p/src/event_loop/filerequest: the two ends of a file transfer.
pub mod SendManager
pub mod ReceiveManager
pub mod World
pub mod Receiver
pub mod SendData
mod Examples
