-- ===== src/Understand/Orphan.antt =====
-- understand/orphan/resolver.py: the Apex classes that nothing in the corpus calls, and the channel that
-- explains each.
pub mod Inputs
pub mod Callers
pub mod Channels
pub mod Resolve
pub mod Called
pub mod Report
