-- ===== src/Understand/Compare.antt =====
-- understand/compare.py: two extracts as views, and the report of where they differ.
pub mod View
pub mod Diff
pub mod Clean
