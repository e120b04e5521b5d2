-- ===== src/Core.antt =====
-- The crate fyles_service/core.
pub mod BoundedList
pub mod TtlMap
pub mod Domain
mod Examples
