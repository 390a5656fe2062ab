-- ===== src/Gateway/Catalog.antt =====
-- agentid/gateway/api/registry.py: the routes that write servers, tools and stored credentials, with
-- their audit events. The guard of administrators has passed, and `admin` is its context; a route that
-- writes a row answers with it.
pub mod Deletion
use agentid_mcp_gateway.Prelude.{
  ℕ, String, Bool, true, Option, none, some, List, map, find_first, if◌then◌else◌,
}
use agentid_mcp_gateway.Context.{RequestContext}
use agentid_mcp_gateway.Errors.{Result, ok, ◌>>=◌}
use agentid_mcp_gateway.Json.{Fields, field, str, end}
use agentid_mcp_gateway.Models.{Db, McpServer, Tool, Credential, CredentialType, IdentityType}
use agentid_mcp_gateway.Audit.Events.{log, no_extra}
use agentid_mcp_gateway.Registry.Servers.{
  register_server, require_server, set_enabled, delete_server, list_servers,
}
use agentid_mcp_gateway.Registry.Tools.{register_tool, delete_tool, list_tools}
use agentid_mcp_gateway.Registry.Schemas.{ServerSchema, ToolSchema, server_schema, tool_schema}
use agentid_mcp_gateway.Credentials.Manager.{Holdings, Manager, owned_by, type_value}
use agentid_mcp_gateway.Credentials.Storage.{delete, store, owner_or_server}

-- the event of a change, whose server and tool take the place of those of the context
abbrev pub changed : ℕ → RequestContext → Option String → Option String → String → Fields → Db → Db
changed now admin server tool reason details db =
    log now (record admin { server = server; tool = tool }) "admin.change" "allow"
      (record no_extra { reason = some reason; details = details }) db

unfoldable pub register_server_route :
    ℕ
    → String
    → RequestContext
    → String
    → String
    → CredentialType
    → Option String
    → Option String
    → Bool
    → Fields
    → Db
    → Result (McpServer × Db)
register_server_route now fresh admin name endpoint credential_type description audience enabled
      capabilities db =
    do
      r ←
          register_server fresh name endpoint credential_type description audience enabled
            capabilities db
      ok (r.0, changed now admin (some r.0.name) admin.tool "server.register" end r.1)

unfoldable pub set_server_enabled :
    ℕ → RequestContext → String → Bool → Db → Result (McpServer × Db)
set_server_enabled now admin name enabled db = do
  r ← set_enabled name enabled db
  ok (
    r.0,
    changed now admin (some r.0.name) admin.tool
        (if enabled then "server.enabled" else "server.disabled") end r.1,
  )

unfoldable pub register_tool_route :
    ℕ
    → RequestContext
    → String
    → String
    → Option String
    → Fields
    → Option String
    → List String
    → Bool
    → Option String
    → Bool
    → Db
    → Result (Tool × Db)
register_tool_route now admin server_name name description input_schema required tags requires_sa
      default_sa enabled db =
    do
      server ← require_server db server_name
      r ←
          register_tool server name description input_schema required tags requires_sa default_sa
            enabled db
      ok (
        r.0,
        changed now admin (some server.name) (some r.0.qualified_name) "tool.register" end r.1,
      )

unfoldable pub delete_tool_route : ℕ → RequestContext → String → Db → Result Db
delete_tool_route now admin qualified_name db = do
  db' ← delete_tool qualified_name db
  ok (changed now admin admin.server (some qualified_name) "tool.delete" end db')

unfoldable pub delete_credential : ℕ → RequestContext → String → Holdings → Holdings
delete_credential now admin credential_id h =
    let h' = delete credential_id h in
    record h' {
      db =
          changed now admin admin.server admin.tool "credential.delete"
            (field "credential_id" (str credential_id) end) h'.db;
    }

-- the route `list_servers`
pub listed_servers : Bool → Db → List ServerSchema
listed_servers enabled_only db = map (server_schema true db) (list_servers enabled_only db)

-- the route `get_server`
pub shown_server : String → Db → Result ServerSchema
shown_server name db = require_server db name >>= λ s. ok (server_schema true db s)

-- the route `list_tools`, of the enabled tools
pub listed_tools : Option String → Db → Result (List ToolSchema)
listed_tools server db = list_tools server true db >>= λ ts. ok (map tool_schema ts)

unfoldable pub delete_server_route : ℕ → RequestContext → String → Db → Result Db
delete_server_route now admin name db = do
  db' ← delete_server name db
  ok (changed now admin (some name) admin.tool "server.delete" end db')

-- `body.owner_type or SERVER_DEFAULT_OWNER`
abbrev pub owner_type_or_gateway : Option IdentityType → IdentityType
owner_type_or_gateway none = IdentityType.gateway
owner_type_or_gateway (some t) = t

-- the id of the row that is overwritten, or that of the new one
abbrev stored_id : String → Option Credential → String
stored_id fresh none = fresh
stored_id fresh (some c) = c.id

-- The route `store_credential` answers with the id of the credential alone.
unfoldable pub store_credential :
    Manager
    → ℕ
    → ℕ
    → String
    → RequestContext
    → String
    → CredentialType
    → Fields
    → Option IdentityType
    → Option String
    → Option ℕ
    → Holdings
    → Result (String × Holdings)
store_credential m now later fresh admin name credential_type payload owner_type owner_id expires_at
      h =
    do
      server ← require_server h.db name
      let owner = owner_type_or_gateway owner_type
      let owned = owned_by server.id owner (owner_or_server owner_id server)
      let id = stored_id fresh (find_first owned h.db.credentials)
      let h' = store m now fresh server credential_type payload owner owner_id expires_at h
      ok (
        id,
        record h' {
          db =
              changed later admin (some server.name) admin.tool "credential.store"
                (field "credential_id" (str id)
                  (field "credential_type" (str (type_value credential_type)) end))
                h'.db;
        },
      )
