-- ===== src/Types.antt =====
-- The domain types of crates/matrixpost-core/src/types and their operations.
pub mod Enums
pub mod Account
pub mod Request
pub mod Upstream
pub mod State
pub mod Article
