-- ===== src/Crypto.antt =====
-- The crate fyles_service/crypto.
pub mod BitStore
pub mod NonceWindow
pub mod NonceSession
mod Examples
