-- ===== src/Sdk.antt =====
-- agentid/sdk/server: what a downstream MCP server verifies, and what it learns.
pub mod Claims
pub mod Verifier
