-- ===== src/Registry/Schemas.antt =====
-- agentid/registry/schemas.py: what a response shows of a server and of a tool.
use agentid_mcp_gateway.Prelude.{
  String, Bool, Option, some, List, [], ◌==◌, map, select, if◌then◌else◌,
}
use agentid_mcp_gateway.Json.{Fields}
use agentid_mcp_gateway.Models.{Db, McpServer, Tool, CredentialType, permission}

pub record ToolSchema : Type 0 where
  pub name : String
  pub qualified_name : String
  pub description : Option String
  pub input_schema : Fields
  pub required_permission : Option String
  pub tags : List String
  pub requires_service_account : Bool
  pub enabled : Bool

pub record ServerSchema : Type 0 where
  pub id : String
  pub name : String
  pub description : Option String
  pub endpoint : String
  pub credential_type : CredentialType
  pub audience : Option String
  pub enabled : Bool
  pub capabilities : Fields
  pub tools : List ToolSchema

-- `ToolSchema.from_model`
pub tool_schema : Tool → ToolSchema
tool_schema tool = record {
  name = tool.name;
  qualified_name = tool.qualified_name;
  description = tool.description;
  input_schema = tool.input_schema;
  required_permission = some (permission tool);
  tags = tool.tags;
  requires_service_account = tool.requires_service_account;
  enabled = tool.enabled;
}

-- `ServerSchema.from_model`, with the tools of the server in the database
pub server_schema : Bool → Db → McpServer → ServerSchema
server_schema include_tools db server = record {
  id = server.id;
  name = server.name;
  description = server.description;
  endpoint = server.endpoint;
  credential_type = server.credential_type;
  audience = server.audience;
  enabled = server.enabled;
  capabilities = server.capabilities;
  tools =
      if include_tools
      then map tool_schema (select (λ (t : Tool). t.server_id == server.id) db.tools)
      else [];
}
