-- ===== src/Veil.antt =====
-- The parts of the Veil protocol: veil/src/codec.rs and veil/src/coalesce.rs.
pub mod Codec
pub mod Coalesce
pub mod Ru
mod Tests
