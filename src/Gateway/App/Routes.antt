-- ===== src/Gateway/App/Routes.antt =====
-- agentid/gateway/api: the routes behind the dependencies of the application.
use agentid_mcp_gateway.Prelude.{
  ℕ, String, Bool, true, false, none, some, List, [], ◌∷◌, ◌==◌, map, any, length, select,
}
use agentid_mcp_gateway.Context.{RequestContext, execution_identity}
use agentid_mcp_gateway.Errors.{Result, ok, raise}
use agentid_mcp_gateway.Models.{Db, McpServer, AuditEvent}
use agentid_mcp_gateway.Audit.Query.{list_events, my_events}
use agentid_mcp_gateway.Authorization.Decisions.{effect_value}
use agentid_mcp_gateway.Credentials.Manager.{Holdings}
use agentid_mcp_gateway.Registry.Schemas.{server_schema, tool_schema}
use agentid_mcp_gateway.Registry.Search.{ToolMatch}
use agentid_mcp_gateway.Registry.Tools.{server_of}
use agentid_mcp_gateway.Registry.Servers.{list_servers}
use agentid_mcp_gateway.Gateway.Accounts
use agentid_mcp_gateway.Gateway.Accounts.{user_response, agent_response, sa_response}
use agentid_mcp_gateway.Gateway.App.{
  Gateway, Arrival, Running, Route, Response, database, settings_of, jwt_of, with_db, request_id_of,
  reads, writes, writes_holdings, commits, run_route, for_admin, for_caller, response_of,
}
use agentid_mcp_gateway.Gateway.Catalog
use agentid_mcp_gateway.Gateway.Commands.{
  Command, CallerCommand, AdminCommand, Reply, ServerSummary,
}
use agentid_mcp_gateway.Gateway.Deps.{whoami}
use agentid_mcp_gateway.Gateway.Discovery.{DiscoveryResult, discover_tools}
use agentid_mcp_gateway.Gateway.Exchange.{Draw}
use agentid_mcp_gateway.Gateway.Exchange.Route.{exchange_route}
use agentid_mcp_gateway.Gateway.Login.{LoginDraw, login, logout, introspect}
use agentid_mcp_gateway.Gateway.Policy
use agentid_mcp_gateway.Gateway.Service.{CallOutcome, Moment, call_tool}

abbrev login_draw : Arrival → LoginDraw
login_draw a = record { now = a.now; later = a.later; session_id = a.drawn 0; jti = a.drawn 1 }

abbrev draw_of : Arrival → Draw
draw_of a = record { now = a.now; later = a.later; fresh = a.drawn 0; jti = a.drawn 1 }

abbrev moment_of : Arrival → Moment
moment_of a = record { now = a.now; jti = a.drawn 0; elapsed = a.elapsed }

-- a result as a reply
abbrev pub reply_of : {A : Type 0} → (A → Reply) → Result A → Result Reply
reply_of f (ok a) = ok (f a)
reply_of f (raise e) = raise e

-- a row that was written, as the reply shows it
abbrev pub shown : {A : Type 0} → (Db → A → Reply) → Result (A × Db) → Result (Reply × Db)
shown f (ok (a, db)) = ok (f db a, db)
shown f (raise e) = raise e

abbrev pub status_after : String → Result Db → Result (Reply × Db)
status_after s (ok db) = ok (Reply.status s, db)
status_after s (raise e) = raise e

-- the id of a credential that was stored
abbrev pub stored : Result (String × Holdings) → Result (Reply × Holdings)
stored (ok (id, h)) = ok (Reply.credential id, h)
stored (raise e) = raise e

-- `m.tool.server.name`
abbrev matches_on : Db → String → ToolMatch → Bool
matches_on db name m = elim (server_of db m.tool) [ none ↦ false | some s ↦ s.name == name ]

abbrev tool_count : Db → DiscoveryResult → McpServer → ℕ
tool_count db result s = length (select (matches_on db s.name) result.matches)

abbrev summary : Db → DiscoveryResult → McpServer → ServerSummary
summary db result s = record {
  name = s.name;
  description = s.description;
  enabled = s.enabled;
  tool_count = tool_count db result s;
}

abbrev is_reachable : Db → DiscoveryResult → McpServer → Bool
is_reachable db result s = any (matches_on db s.name) result.matches

-- the servers that expose a tool that the caller may call
unfoldable pub reachable : Db → DiscoveryResult → List ServerSummary
reachable db result =
    map (summary db result) (select (is_reachable db result) (list_servers true db))

abbrev found : (Db → DiscoveryResult → Reply) → DiscoveryResult × Db → Result (Reply × Db)
found f (result, db) = ok (f db result, db)

abbrev call_response : RequestContext → CallOutcome → Reply
call_response ctx outcome = Reply.call_response record {
  request_id = ctx.request_id;
  tool = outcome.route.tool.qualified_name;
  server = outcome.route.server.name;
  decision = effect_value outcome.decision.effect;
  execution_identity =
      execution_identity (record ctx { service_account_id = outcome.decision.service_account_id });
  response = outcome.response;
  latency_ms = outcome.latency_ms;
}

abbrev called : {W : Type 0} → RequestContext → Result CallOutcome × W → Result Reply × W
called ctx (r, w) = (reply_of (call_response ctx) r, w)

abbrev events_reply : ℕ × List AuditEvent → Reply
events_reply (n, es) = Reply.events n es

unfoldable pub caller_route : Gateway → Arrival → CallerCommand → Route
caller_route g a (CallerCommand.introspect token) =
    reads (λ ctx db.
      reply_of Reply.introspection (introspect (jwt_of g) (settings_of g) a.now ctx token))
caller_route g a CallerCommand.logout =
    writes (λ ctx db. ok (Reply.status "revoked", logout a.now a.later ctx db))
caller_route g a CallerCommand.whoami = reads (λ ctx db. ok (Reply.who (whoami db ctx)))
caller_route g a CallerCommand.my_agents =
    reads (λ ctx db. ok (Reply.agents (map (agent_response db) (Accounts.my_agents ctx db))))
caller_route g a CallerCommand.servers = writes (λ ctx db.
    found (λ db' result. Reply.summaries (reachable db' result))
      (discover_tools a.now db ctx "" [] 500))
caller_route g a (CallerCommand.my_events limit) =
    reads (λ ctx db. ok (events_reply (my_events g.tie ctx limit db)))
caller_route g a (CallerCommand.list_permitted_tools query limit) = writes (λ ctx db.
    found (λ db' result. Reply.discovery result) (discover_tools a.now db ctx query [] limit))
caller_route g a (CallerCommand.search_tools query servers limit) = writes (λ ctx db.
    found (λ db' result. Reply.discovery result) (discover_tools a.now db ctx query servers limit))
caller_route g a (CallerCommand.call_tool tool arguments server service_account resource) =
    commits (λ ctx w.
      called ctx
        (call_tool g.service (moment_of a) ctx tool arguments server service_account resource w))
caller_route g a (CallerCommand.list_servers enabled_only) =
    reads (λ ctx db. ok (Reply.server_list (Catalog.listed_servers enabled_only db)))
caller_route g a (CallerCommand.get_server name) =
    reads (λ ctx db. reply_of Reply.server (Catalog.shown_server name db))

unfoldable pub admin_route : Gateway → Arrival → AdminCommand → Route
admin_route g a AdminCommand.list_users =
    reads (λ admin db. ok (Reply.users (Accounts.list_users db)))
admin_route g a AdminCommand.list_agents =
    reads (λ admin db. ok (Reply.agents (Accounts.list_agents db)))
admin_route g a AdminCommand.list_service_accounts =
    reads (λ admin db. ok (Reply.service_accounts (Accounts.list_service_accounts db)))
admin_route g a AdminCommand.list_roles =
    reads (λ admin db. ok (Reply.roles (Policy.list_all_roles db)))
admin_route g a (AdminCommand.create_user email password display_name roles) = writes (λ admin db.
    shown (λ db' u. Reply.user (user_response db' u))
      (Accounts.create_user_route g.hash_password a.later (a.drawn 0) admin email password
        display_name roles db))
admin_route g a (AdminCommand.get_user id) =
    reads (λ admin db. reply_of Reply.user (Accounts.shown_user id db))
admin_route g a (AdminCommand.get_agent id) =
    reads (λ admin db. reply_of Reply.agent (Accounts.shown_agent id db))
admin_route g a (AdminCommand.grant_agent user agent scopes) =
    writes
      (λ admin db. status_after "granted" (Accounts.grant_agent a.later admin user agent scopes db))
admin_route g a (AdminCommand.revoke_agent user agent) =
    writes
      (λ admin db. status_after "revoked" (Accounts.revoke_agent a.now a.later admin user agent db))
admin_route g a (AdminCommand.create_agent name kind description owner roles) = writes (λ admin db.
    shown (λ db' x. Reply.agent (agent_response db' x))
      (Accounts.create_agent_route a.later (a.drawn 0) admin name kind description owner roles db))
admin_route g a (AdminCommand.create_service_account name description roles) = writes (λ admin db.
    shown (λ db' x. Reply.service_account (sa_response db' x))
      (Accounts.create_service_account_route a.later (a.drawn 0) admin name description roles db))
admin_route g a (AdminCommand.grant_service_account sa grantee_type grantee) = writes (λ admin db.
    status_after "granted"
      (Accounts.grant_service_account_route a.later admin sa grantee_type grantee db))
admin_route g a (AdminCommand.revoke_service_account sa grantee grantee_type) = writes (λ admin db.
    status_after "revoked"
      (Accounts.revoke_service_account_grant a.now a.later admin sa grantee grantee_type db))
admin_route g a (AdminCommand.create_api_key name owner_type owner ttl) = writes (λ admin db.
    shown (λ db' k. Reply.api_key k)
      (Accounts.create_api_key (settings_of g) g.hash_secret a.now a.later (a.drawn 0) (a.drawn 1)
        (a.drawn 2) admin name owner_type owner ttl db))
admin_route g a (AdminCommand.list_api_keys owner) =
    reads (λ admin db. ok (Reply.api_keys (Accounts.listed_api_keys owner db)))
admin_route g a (AdminCommand.revoke_api_key id) = writes (λ admin db.
    ok (Reply.status "revoked", Accounts.revoke_api_key_route a.now a.later admin id db))
admin_route g a (AdminCommand.put_role body) = writes (λ admin db.
    shown (λ db' r. Reply.role r) (Policy.put_role_route a.later (a.drawn 0) admin body db))
admin_route g a (AdminCommand.get_role name) =
    reads (λ admin db. reply_of Reply.role (Policy.get_single_role name db))
admin_route g a (AdminCommand.apply_bundle bundle) = writes (λ admin db.
    shown (λ db' rs. Reply.roles rs) (Policy.apply_bundle a.later a.drawn admin bundle db))
admin_route g a (AdminCommand.assign_user_roles id roles) = writes (λ admin db.
    shown (λ db' ns. Reply.names ns) (Policy.assign_user_roles a.later admin id roles db))
admin_route g a (AdminCommand.assign_agent_roles id roles) = writes (λ admin db.
    shown (λ db' ns. Reply.names ns) (Policy.assign_agent_roles a.later admin id roles db))
admin_route g a (AdminCommand.assign_sa_roles id roles) = writes (λ admin db.
    shown (λ db' ns. Reply.names ns) (Policy.assign_sa_roles a.later admin id roles db))
admin_route g a
      (AdminCommand.register_server name endpoint credential_type description audience enabled
        capabilities) =
    writes (λ admin db.
      shown (λ db' s. Reply.server (server_schema true db' s))
        (Catalog.register_server_route a.later (a.drawn 0) admin name endpoint credential_type
          description audience enabled capabilities db))
admin_route g a (AdminCommand.set_server_enabled name enabled) = writes (λ admin db.
    shown (λ db' s. Reply.server (server_schema true db' s))
      (Catalog.set_server_enabled a.later admin name enabled db))
admin_route g a (AdminCommand.delete_server name) =
    writes (λ admin db. status_after "deleted" (Catalog.delete_server_route a.later admin name db))
admin_route g a
      (AdminCommand.register_tool server name description input_schema required tags requires_sa
        default_sa enabled) =
    writes (λ admin db.
      shown (λ db' t. Reply.tool (tool_schema t))
        (Catalog.register_tool_route a.later admin server name description input_schema required
          tags requires_sa default_sa enabled db))
admin_route g a (AdminCommand.list_tools server) =
    reads (λ admin db. reply_of Reply.tool_list (Catalog.listed_tools server db))
admin_route g a (AdminCommand.delete_tool name) =
    writes (λ admin db. status_after "deleted" (Catalog.delete_tool_route a.later admin name db))
admin_route g a
      (AdminCommand.store_credential server credential_type payload owner_type owner expires_at) =
    writes_holdings (λ admin h. stored (
      Catalog.store_credential g.service.credentials a.now a.later (a.drawn 0) admin server
        credential_type payload owner_type owner expires_at h))
admin_route g a (AdminCommand.delete_credential id) =
    writes_holdings
      (λ admin h. ok (Reply.status "deleted", Catalog.delete_credential a.later admin id h))
admin_route g a (AdminCommand.list_events filters limit offset) =
    reads (λ admin db. ok (events_reply (list_events g.tie filters limit offset db)))

-- a route without a caller, which commits what it wrote
abbrev public_route : {A : Type 0} → (A → Reply) → Result A × Db → Running → Result Reply × Running
public_route f (r, db) s = (reply_of f r, with_db db s)

-- one request
unfoldable pub perform : Gateway → Arrival → Command → Running → Result Reply × Running
perform g a (Command.login email password) s =
    public_route Reply.token_response
      (login (settings_of g) g.check_password (login_draw a) (request_id_of a) a.client email
        password (database s))
      s
perform g a (Command.token_exchange token body) s =
    public_route Reply.exchange_response
      (exchange_route (jwt_of g) g.message (settings_of g) (draw_of a) a.later (request_id_of a)
        token body (database s))
      s
perform g a (Command.as_caller c) s = for_caller g a (run_route (caller_route g a c)) s
perform g a (Command.as_admin c) s = for_caller g a (for_admin (admin_route g a c)) s

-- its response
unfoldable pub respond : Gateway → Arrival → Command → Running → Response × Running
respond g a c s = let (r, s') = perform g a c s in (response_of (request_id_of a) r, s')

-- the requests that the gateway serves one after the other
unfoldable pub serve_all : Gateway → List (Arrival × Command) → Running → Running
serve_all g [] s = s
serve_all g ((a, c) ∷ rest) s = serve_all g rest (respond g a c s).1
