-- ===== src/Understand.antt =====
-- understand: the comparison of two extracts, the store of the dependency graph, and the classes without a
-- caller.
pub mod Compare
pub mod Graph
pub mod Orphan
