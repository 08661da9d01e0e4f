-- ===== src/Mcp.antt =====
-- mcp/: the gateway through which the runtime reaches Salesforce.
pub mod Quota
