-- ===== src/Serialization.antt =====
-- src/quantforge/serialization.
pub mod CanonicalDecimal
