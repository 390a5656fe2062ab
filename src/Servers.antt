-- ===== src/Servers.antt =====
-- agentid/servers: the example MCP servers that stand behind the gateway.
pub mod Common
pub mod Github
pub mod Postgres
pub mod Kubernetes
