-- ===== src/Registry/Tools.antt =====
-- agentid/registry/tools.py: the tools of the catalog, and what a caller is told of it.
use agentid_mcp_gateway.Prelude.{
  String, Bool, not, Option, none, some, List, [], ◌∷◌, ◌++◌, ◌==◌, ◌+++◌, is_some, truthy,
  find_first, select, if◌then◌else◌, sort_by, text_leb,
}
use agentid_mcp_gateway.Context.{text_of}
use agentid_mcp_gateway.Errors.{Result, ok, raise, error, ErrorKind, ◌>>=◌, ◌>>◌, raise_if}
use agentid_mcp_gateway.Json.{Fields}
use agentid_mcp_gateway.Models.{Db, McpServer, Tool}
use agentid_mcp_gateway.Registry.Servers.{require_server}

unfoldable pub get_tool : Db → String → Option Tool
get_tool db qualified_name = find_first (λ (t : Tool). t.qualified_name == qualified_name) db.tools

-- `tool.server`
unfoldable pub server_of : Db → Tool → Option McpServer
server_of db tool = find_first (λ (s : McpServer). s.id == tool.server_id) db.servers

unfoldable pub require_tool : Db → String → Result Tool
require_tool db qualified_name = elim (get_tool db qualified_name) [
  | some t ↦ ok t
  | none ↦ raise (error ErrorKind.not_found_error "unknown_tool")
]

abbrev or_name : Option String → String → Option String
or_name required qualified = if truthy required then required else some qualified

unfoldable pub register_tool :
    McpServer
    → String
    → Option String
    → Fields
    → Option String
    → List String
    → Bool
    → Option String
    → Bool
    → Db
    → Result (Tool × Db)
register_tool server name description input_schema required tags requires_sa default_sa enabled db =
    do
      let qualified : String = server.name +++ "." +++ name
      raise_if (is_some (get_tool db qualified)) ErrorKind.conflict_error "tool_exists"
      let tool : Tool = record {
        server_id = server.id;
        name = name;
        qualified_name = qualified;
        description = description;
        input_schema = input_schema;
        required_permission = or_name required qualified;
        tags = tags;
        enabled = enabled;
        requires_service_account = requires_sa;
        default_service_account_id = default_sa;
      }
      ok (tool, record db { tools = db.tools ++ tool ∷ [] })

abbrev enabled_tools : Bool → Db → List Tool
enabled_tools enabled_only db =
    if enabled_only then select (λ (t : Tool). t.enabled) db.tools else db.tools

abbrev by_qualified_name : Tool → Tool → Bool
by_qualified_name a b = text_leb a.qualified_name b.qualified_name

-- The tools, all or of one server.
unfoldable pub list_tools : Option String → Bool → Db → Result (List Tool)
list_tools server enabled_only db =
    let tools = sort_by by_qualified_name (enabled_tools enabled_only db) in
    if truthy server
    then (require_server db (text_of server) >>= λ s.
        ok (select (λ (t : Tool). t.server_id == s.id) tools))
    else ok tools

unfoldable pub delete_tool : String → Db → Result Db
delete_tool qualified_name db = require_tool db qualified_name >>= λ t. ok (record db {
  tools = select (λ (x : Tool). not (x.qualified_name == t.qualified_name)) db.tools;
})
