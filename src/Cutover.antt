-- ===== src/Cutover.antt =====
-- cutover/ and mcp/routing.py: moving the traffic of a process from Salesforce to the runtime in
-- stages, and back.
pub mod Router
pub mod Routing
pub mod Saga
pub mod Readiness
pub mod Orchestrator
pub mod Apply
pub mod Monitor
