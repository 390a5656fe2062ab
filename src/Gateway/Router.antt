-- ===== src/Gateway/Router.antt =====
-- agentid/gateway/mcp/router.py: which server owns a tool. The route keeps the row of the tool and
-- that of its server.
use agentid_mcp_gateway.Prelude.{
  String, false, not, ◌&&◌, Option, none, some, ◌==◌, ◌+++◌, ◌≡◌, arith, eq_iff, truthy, has_char,
  find_first-passes, Option-cases, Bool-cases, inl, inr, if◌then◌else◌,
}
use agentid_mcp_gateway.Context.{text_of}
use agentid_mcp_gateway.Errors.{Result, ok, raise, error, ErrorKind, ◌>>=◌, >>=-eq-ok}
use agentid_mcp_gateway.Models.{Db, Tool, McpServer}
use agentid_mcp_gateway.Registry.Tools.{get_tool, server_of}

pub record Route : Type 0 where
  pub tool : Tool
  pub server : McpServer

abbrev pub url : Route → String
url r = r.server.endpoint +++ "/mcp"

-- `tool_name`, or the name under the hint
unfoldable pub qualify : String → Option String → Result String
qualify tool_name server_hint =
    if has_char b'.' tool_name
    then ok tool_name
    else if truthy server_hint
    then ok (text_of server_hint +++ "." +++ tool_name)
    else raise (error ErrorKind.not_found_error "unqualified_tool")

abbrev on_server : Option String → Tool → Option McpServer → Result Route
on_server server_hint tool none = raise (error ErrorKind.not_found_error "unknown_tool")
on_server server_hint tool (some server) =
    if truthy server_hint && not (server.name == text_of server_hint)
    then raise (error ErrorKind.not_found_error "unknown_tool")
    else ok record { tool = tool; server = server }

unfoldable pub resolve_route : Db → String → Option String → Result Route
resolve_route db tool_name server_hint = qualify tool_name server_hint >>= λ q.
    elim (get_tool db q) [
      | none ↦ raise (error ErrorKind.not_found_error "unknown_tool")
      | some tool ↦ on_server server_hint tool (server_of db tool)
    ]

-- A route leads to the tool of the qualified name and to that tool's own server, and to the server of
-- the hint where one is given.
pub resolve_route_sound :
    (db : Db) (tool_name : String) (server_hint : Option String) {r : Route}
    → resolve_route db tool_name server_hint ≡ ok r
    → (q : String) × (qualify tool_name server_hint ≡ ok q)
      × (r.tool.qualified_name ≡ q)
      × (r.server.id ≡ r.tool.server_id)
      × ((truthy server_hint && not (r.server.name == text_of server_hint)) ≡ false)
unfolding resolve_route get_tool server_of
resolve_route_sound db tool_name server_hint {r} h =
    let (q, e, h1) = >>=-eq-ok (qualify tool_name server_hint) _ h in
    elim (Option-cases (get_tool db q)) [
      | inl f ↦ absurd (ground arith)
      | inr (tool, f) ↦ elim (Option-cases (server_of db tool)) [
        | inl g ↦ absurd (ground arith)
        | inr (server, g) ↦
            elim (Bool-cases (truthy server_hint && not (server.name == text_of server_hint))) [
              | inl wrong ↦ absurd (ground arith)
              | inr right ↦
                  let named = find_first-passes (λ (t : Tool). t.qualified_name == q) db.tools f in
                  let owned =
                    find_first-passes (λ (s : McpServer). s.id == tool.server_id) db.servers g in
                  (
                    q,
                    e,
                    ground (arith, eq_iff tool.qualified_name q),
                    ground (arith, eq_iff server.id tool.server_id),
                    ground arith,
                  )
            ]
      ]
    ]
