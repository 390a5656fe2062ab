-- ===== src/Identity.antt =====
-- agentid/identity: users, agents, service accounts, sessions, API keys, delegation and tokens.
pub mod Users
pub mod Agents
pub mod ServiceAccounts
pub mod Sessions
pub mod Tokens
pub mod Delegation
pub mod ApiKeys
