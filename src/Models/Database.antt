-- ===== src/Models/Database.antt =====
-- The database as the session of one request sees it: a list of rows for each table, in the order
-- of insertion.
use agentid_mcp_gateway.Prelude.{List, []}
use agentid_mcp_gateway.Models.Identity.{
  User, Agent, ServiceAccount, UserAgentGrant, ServiceAccountGrant,
}
use agentid_mcp_gateway.Models.Policy.{Permission, Role}
use agentid_mcp_gateway.Models.Registry.{McpServer, Tool, Credential}
use agentid_mcp_gateway.Models.Sessions.{Session, ApiKey, Delegation}
use agentid_mcp_gateway.Models.Audit.{AuditEvent}

pub record Db : Type 0 where
  pub users : List User
  pub agents : List Agent
  pub service_accounts : List ServiceAccount
  pub permissions : List Permission
  pub roles : List Role
  pub user_agent_grants : List UserAgentGrant
  pub service_account_grants : List ServiceAccountGrant
  pub sessions : List Session
  pub api_keys : List ApiKey
  pub delegations : List Delegation
  pub servers : List McpServer
  pub tools : List Tool
  pub credentials : List Credential
  pub audit_events : List AuditEvent

abbrev pub empty_db : Db
empty_db = record {
  users = [];
  agents = [];
  service_accounts = [];
  permissions = [];
  roles = [];
  user_agent_grants = [];
  service_account_grants = [];
  sessions = [];
  api_keys = [];
  delegations = [];
  servers = [];
  tools = [];
  credentials = [];
  audit_events = [];
}
