-- ===== src/Registry/Servers.antt =====
-- agentid/registry/servers.py: the MCP servers that are registered.
use agentid_mcp_gateway.Prelude.{
  String, Bool, Option, none, some, List, [], ◌∷◌, ◌++◌, ◌==◌, is_some, find_first, select,
  update_where, if◌then◌else◌, strip_right_of, any, not, sort_by, text_leb,
}
use agentid_mcp_gateway.Errors.{
  Result, ok, raise, error, ErrorKind, ◌>>=◌, ◌>>◌, raise_if, integrity_error,
}
use agentid_mcp_gateway.Json.{Fields}
use agentid_mcp_gateway.Models.{Db, McpServer, CredentialType, Credential, Tool}

unfoldable pub get_server : Db → String → Option McpServer
get_server db server_id = find_first (λ (s : McpServer). s.id == server_id) db.servers

unfoldable pub get_server_by_name : Db → String → Option McpServer
get_server_by_name db name = find_first (λ (s : McpServer). s.name == name) db.servers

-- by name, or else by id
unfoldable pub resolve_server : Db → String → Option McpServer
resolve_server db identifier = elim (get_server_by_name db identifier) [
  | some s ↦ some s
  | none ↦ get_server db identifier
]

unfoldable pub require_server : Db → String → Result McpServer
require_server db identifier = elim (resolve_server db identifier) [
  | some s ↦ ok s
  | none ↦ raise (error ErrorKind.not_found_error "unknown_server")
]

unfoldable pub register_server :
    String
    → String
    → String
    → CredentialType
    → Option String
    → Option String
    → Bool
    → Fields
    → Db
    → Result (McpServer × Db)
register_server fresh name endpoint credential_type description audience enabled capabilities db =
    do
      raise_if (is_some (get_server_by_name db name)) ErrorKind.conflict_error "server_exists"
      let server : McpServer = record {
        id = fresh;
        name = name;
        description = description;
        endpoint = strip_right_of b'/' endpoint;
        credential_type = credential_type;
        audience = audience;
        enabled = enabled;
        capabilities = capabilities;
      }
      ok (server, record db { servers = db.servers ++ server ∷ [] })

-- a write to the row of the server
abbrev rewrite_server : (McpServer → McpServer) → McpServer → Db → Result (McpServer × Db)
rewrite_server f s db =
    ok (f s, record db { servers = update_where (λ (x : McpServer). x.id == s.id) f db.servers })

unfoldable pub set_enabled : String → Bool → Db → Result (McpServer × Db)
set_enabled identifier enabled db = require_server db identifier >>= λ s.
    rewrite_server (λ (x : McpServer). record x { enabled = enabled }) s db

abbrev given {ℓ} : {A : Type ℓ} → Option A → A → A
given none old = old
given (some new) old = new

abbrev given_text : Option String → Option String → Option String
given_text none old = old
given_text (some new) old = some new

abbrev endpoint_of : Option String → String → String
endpoint_of none old = old
endpoint_of (some new) old = strip_right_of b'/' new

unfoldable pub update_server :
    String
    → Option String
    → Option String
    → Option String
    → Option CredentialType
    → Option Fields
    → Db
    → Result (McpServer × Db)
update_server identifier endpoint description audience credential_type capabilities db =
    require_server db identifier >>= λ s.
    rewrite_server
      (λ (x : McpServer). record x {
        endpoint = endpoint_of endpoint x.endpoint;
        description = given_text description x.description;
        audience = given_text audience x.audience;
        credential_type = given credential_type x.credential_type;
        capabilities = given capabilities x.capabilities;
      })
      s db

-- The rows that the database still refers to, those of stored credentials, keep a server from being
-- deleted; its tools go with it.
unfoldable pub delete_server : String → Db → Result Db
delete_server identifier db = require_server db identifier >>= λ s.
    if any (λ (c : Credential). c.server_id == s.id) db.credentials
    then raise integrity_error
    else ok (record db {
      tools = select (λ (t : Tool). not (t.server_id == s.id)) db.tools;
      servers = select (λ (x : McpServer). not (x.id == s.id)) db.servers;
    })

abbrev by_name : McpServer → McpServer → Bool
by_name a b = text_leb a.name b.name

unfoldable pub list_servers : Bool → Db → List McpServer
list_servers enabled_only db =
    sort_by by_name
      (if enabled_only then select (λ (s : McpServer). s.enabled) db.servers else db.servers)
