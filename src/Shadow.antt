-- ===== src/Shadow.antt =====
-- validate/shadow/: the comparison of the runtime with production, one change event at a time.
pub mod Event
pub mod Diff
pub mod Categorize
pub mod Store
pub mod Env
pub mod Executor
