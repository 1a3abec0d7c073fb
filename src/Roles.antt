-- ===== src/Roles.antt =====
-- src/quantforge/roles: the Chair's boundary, and the second-layer validation of what a role returns.
pub mod Chair
pub mod Output
pub mod Validation
pub mod Texts
pub mod Advisory
