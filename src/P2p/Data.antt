-- ===== src/P2p/Data.antt =====
-- fyles_service/p2p/src/data_structures: maps whose entries expire.
pub mod IdleExpiryMap
mod Examples
pub mod ScopedExpiryMap
