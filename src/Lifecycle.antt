-- ===== src/Lifecycle.antt =====
-- crates/matrixpost-core/src/lifecycle.rs.
pub mod Records
pub mod Status
pub mod Validation
pub mod History
