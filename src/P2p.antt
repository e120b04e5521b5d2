-- ===== src/P2p.antt =====
-- The crate fyles_service/p2p.
pub mod Types
pub mod FileReader
pub mod Data
pub mod Transfer
pub mod RequestRegistry
pub mod FileTracker
pub mod Sessions
