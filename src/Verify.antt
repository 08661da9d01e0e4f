-- ===== src/Verify.antt =====
-- verify/compare.py: a trace of the org against the definition of a process.
pub mod Model
pub mod Checks
pub mod Verdict
pub mod Paths
pub mod Operations
pub mod Conforms
