-- ===== src/Models/Registry.antt =====
-- agentid/models/registry.py and credential.py: MCP servers, their tools and stored credentials.
use agentid_mcp_gateway.Prelude.{ℕ, String, Option, none, some, Bool, List, ◌==◌, if◌then◌else◌}
use agentid_mcp_gateway.Json.{Fields}
use agentid_mcp_gateway.Models.Identity.{IdentityType}

pub data CredentialType : Type 0 where
  nothing oauth api_key service_account : CredentialType

pub record McpServer : Type 0 where
  pub id : String
  pub name : String
  pub description : Option String
  pub endpoint : String
  pub credential_type : CredentialType
  pub audience : Option String
  pub enabled : Bool
  pub capabilities : Fields

pub record Tool : Type 0 where
  pub server_id : String
  pub name : String
  pub qualified_name : String
  pub description : Option String
  pub input_schema : Fields
  pub required_permission : Option String
  pub tags : List String
  pub enabled : Bool
  pub requires_service_account : Bool
  pub default_service_account_id : Option String

-- `Tool.permission`: the required permission, or the qualified name where there is none
abbrev or_qualified : Option String → String → String
or_qualified none q = q
or_qualified (some p) q = if p == "" then q else p

unfoldable pub permission : Tool → String
permission tool = or_qualified tool.required_permission tool.qualified_name

pub record Credential : Type 0 where
  pub id : String
  pub server_id : String
  pub owner_type : IdentityType
  pub owner_id : String
  pub credential_type : CredentialType
  pub ciphertext : String
  pub expires_at : Option ℕ
  pub refresh_ciphertext : Option String
  pub updated_at : ℕ
