-- ===== src/Gateway/Discovery.antt =====
-- agentid/gateway/mcp/discovery.py, and discover_tools of services/mcp_service.py: the tools that a caller is told of are those that it may call.
pub mod Filtered
use agentid_mcp_gateway.Prelude.{
  ℕ, ◌-◌, String, Bool, true, false, Option, none, some, List, [], ◌∷◌, length, set_add, select,
  if◌then◌else◌,
}
use agentid_mcp_gateway.Context.{RequestContext}
use agentid_mcp_gateway.Models.{Db, McpServer, Tool}
use agentid_mcp_gateway.Authorization.Decisions.{is_allowed}
use agentid_mcp_gateway.Authorization.Engine.{authorize_tool}
use agentid_mcp_gateway.Json.{str, num, field, end}
use agentid_mcp_gateway.Audit.Events.{log, no_extra}
use agentid_mcp_gateway.Registry.Search.{ToolMatch, search_tools, default_min_score}
use agentid_mcp_gateway.Registry.Tools.{server_of}

pub record DiscoveryResult : Type 0 where
  pub matches : List ToolMatch
  pub filtered_out : ℕ
  pub query : String

-- `replace(ctx, server=..., tool=...)`
abbrev pub probe : RequestContext → Tool → McpServer → RequestContext
probe ctx tool server = record ctx { server = some server.name; tool = some tool.qualified_name }

-- the engine allows the caller to call the tool
abbrev pub callable_on : Db → RequestContext → Tool → Option McpServer → Bool
callable_on db ctx tool none = false
callable_on db ctx tool (some server) =
    is_allowed (authorize_tool db (probe ctx tool server) tool server none)

unfoldable pub callable : Db → RequestContext → Tool → Bool
callable db ctx tool = callable_on db ctx tool (server_of db tool)

-- the loop of `permitted_tool_names`: the names that are permitted, and all the names
unfoldable pub permitted_among : Db → RequestContext → List Tool → List String × List String
permitted_among db ctx [] = ([], [])
permitted_among db ctx (t ∷ ts) =
    let (permitted, decided) = permitted_among db ctx ts in
    (
      if callable db ctx t then set_add t.qualified_name permitted else permitted,
      set_add t.qualified_name decided,
    )

unfoldable pub permitted_tool_names : Db → RequestContext → List String × List String
permitted_tool_names db ctx = permitted_among db ctx (select (λ (t : Tool). t.enabled) db.tools)

unfoldable pub discover : Db → RequestContext → String → List String → ℕ → DiscoveryResult
discover db ctx query servers limit =
    let (permitted, decided) = permitted_tool_names db ctx in
    record {
      matches = search_tools db query (some permitted) servers limit default_min_score;
      filtered_out = length decided - length permitted;
      query = query;
    }

-- `McpService.discover_tools`: a discovery is audited
unfoldable pub discover_tools :
    ℕ → Db → RequestContext → String → List String → ℕ → DiscoveryResult × Db
discover_tools now db ctx query servers limit =
    let result = discover db ctx query servers limit in
    (
      result,
      log now ctx "mcp.discover" "allow"
          (record no_extra {
            reason = some "allowed";
            details = field "query" (str query) (
                field "returned" (num (length result.matches))
                  (field "filtered_out" (num result.filtered_out) end));
          })
          db,
    )
