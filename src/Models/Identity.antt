-- ===== src/Models/Identity.antt =====
-- agentid/models/identity.py: users, agents, service accounts and the grants between them. A row's
-- roles are the ids of its rows in the join table. Time is counted in microseconds.
use agentid_mcp_gateway.Prelude.{ℕ, String, Option, Bool, List}

pub data Persona : Type 0 where
  user non_user : Persona

pub persona_value : Persona → String
persona_value Persona.user = "user"
persona_value Persona.non_user = "non-user"

pub data IdentityType : Type 0 where
  user agent service_account gateway : IdentityType

pub data AgentKind : Type 0 where
  delegated autonomous : AgentKind

pub record User : Type 0 where
  pub id : String
  pub email : String
  pub display_name : Option String
  pub password_hash : Option String
  pub is_active : Bool
  pub roles : List String

pub record Agent : Type 0 where
  pub id : String
  pub name : String
  pub description : Option String
  pub kind : AgentKind
  pub owner_user_id : Option String
  pub is_active : Bool
  pub roles : List String

pub record ServiceAccount : Type 0 where
  pub id : String
  pub name : String
  pub description : Option String
  pub is_active : Bool
  pub roles : List String

-- A user authorizes an agent to act for them; one row for each pair.
pub record UserAgentGrant : Type 0 where
  pub user_id : String
  pub agent_id : String
  pub scopes : Option String
  pub revoked_at : Option ℕ

-- A user or an agent may execute through a service account; one row for each triple.
pub record ServiceAccountGrant : Type 0 where
  pub grantee_type : IdentityType
  pub grantee_id : String
  pub service_account_id : String
  pub revoked_at : Option ℕ
