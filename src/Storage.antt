-- ===== src/Storage.antt =====
-- Persistence: crates/matrixpost-core/src/storage.rs and its children.
pub mod Sql
pub mod Schema
pub mod Table
pub mod Rows
pub mod History
pub mod Jobs
pub mod Accounts
pub mod Config
pub mod ArticleRows
pub mod Articles
pub mod ObjectRows
pub mod Objects
pub mod Consistent
pub mod Dispatch
