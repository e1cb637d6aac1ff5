-- ===== src/Runner.antt =====
-- crates/matrixpost-core/src/runner: what a provider answers, the declarations of local runners, and
-- the registry that dispatches a request to the providers of its targets.
pub mod Outcomes
pub mod Config
pub mod Png
pub mod Protocol
pub mod Client
pub mod Registry
