-- ===== src/Engine.antt =====
-- src/quantforge/engine: the run of the numerical engine, and the trust in it.
pub mod Run
pub mod Trust
pub mod Verified
