-- ===== src/Registry.antt =====
-- agentid/registry: the MCP servers, the catalog of their tools and the search in it.
pub mod Servers
pub mod Tools
pub mod Search
pub mod Schemas
