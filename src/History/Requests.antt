-- ===== src/History/Requests.antt =====
-- agentid/gateway/api: each request does to the ledger what the abstract account allows.
use agentid_mcp_gateway.Prelude.{ℕ, String, List, [], ◌∷◌}
use agentid_mcp_gateway.Context.{RequestContext}
use agentid_mcp_gateway.Errors.{Result, ok, raise}
use agentid_mcp_gateway.Errors.Holds.{Holds}
use agentid_mcp_gateway.Models.{Db}
use agentid_mcp_gateway.Credentials.Manager.{Holdings}
use agentid_mcp_gateway.Gateway.App.{
  Gateway, Arrival, Running, database, settings_of, request_id_of,
}
use agentid_mcp_gateway.Gateway.App.Routes.{
  shown, status_after, stored, caller_route, admin_route, perform, respond, serve_all,
}
use agentid_mcp_gateway.Gateway.Commands.{Command, CallerCommand, AdminCommand, Reply}
use agentid_mcp_gateway.Gateway.Discovery.{discover_tools}
use agentid_mcp_gateway.History.Accounts.{
  Leaves, Leaves-create_user_route, Leaves-create_agent_route, Leaves-create_service_account_route,
  Lawful-grant_agent, Lawful-grant_service_account_route, Lawful-revoke_agent,
  Lawful-revoke_service_account_grant, Leaves-create_api_key, Lawful-revoke_api_key_route,
}
use agentid_mcp_gateway.History.Calls.{Lawful-call_tool}
use agentid_mcp_gateway.History.Catalog.{
  Leaves-register_server_route, Leaves-set_server_enabled, Lawful-delete_server_route,
  Leaves-register_tool_route, Lawful-delete_tool_route, Lawful-delete_credential,
  Leaves-store_credential,
}
use agentid_mcp_gateway.History.Ledger.{Lawful, Lawful-refl, Lawful-trans}
use agentid_mcp_gateway.History.Logins.{Lawful-login, Lawful-exchange_route, Lawful-logout}
use agentid_mcp_gateway.History.Roles.{
  Leaves-put_role_route, Leaves-apply_bundle, Leaves-assign_user_roles, Leaves-assign_agent_roles,
  Leaves-assign_sa_roles,
}
use agentid_mcp_gateway.History.Sessions.{Lawful-log}
use agentid_mcp_gateway.History.Steps.{
  Lawfully, RouteLawful, StepLawful-run_route, StepLawful-for_admin, Lawfully-for_caller,
}

Leaves-shown :
    {A : Type 0} (db : Db) (f : Db → A → Reply) (r : Result (A × Db))
    → Leaves db A r
    → Leaves db Reply (shown f r)
Leaves-shown db f (ok (a, db')) lawful = lawful
Leaves-shown db f (raise e) lawful = tt

Leaves-status_after :
    (db : Db) (text : String) (r : Result Db)
    → Holds (Lawful db) r
    → Leaves db Reply (status_after text r)
Leaves-status_after db text (ok db') lawful = lawful
Leaves-status_after db text (raise e) lawful = tt

Holds-stored :
    (h : Holdings) (r : Result (String × Holdings))
    → Holds (λ (x : String × Holdings). Lawful h.db x.1.db) r
    → Holds (λ (x : Reply × Holdings). Lawful h.db x.1.db) (stored r)
Holds-stored h (ok (id, h')) lawful = lawful
Holds-stored h (raise e) lawful = tt

Lawful-discover_tools :
    (now : ℕ) (db : Db) (ctx : RequestContext) (query : String) (servers : List String) (limit : ℕ)
    → Lawful db (discover_tools now db ctx query servers limit).1
unfolding discover_tools
Lawful-discover_tools now db ctx query servers limit =
    Lawful-log now ctx "mcp.discover" "allow" _ db

RouteLawful-caller_route :
    (g : Gateway) (a : Arrival) (c : CallerCommand) → RouteLawful (caller_route g a c)
unfolding caller_route
RouteLawful-caller_route g a (CallerCommand.introspect token) = tt
RouteLawful-caller_route g a CallerCommand.logout = λ ctx db. Lawful-logout a.now a.later ctx db
RouteLawful-caller_route g a CallerCommand.whoami = tt
RouteLawful-caller_route g a CallerCommand.my_agents = tt
RouteLawful-caller_route g a CallerCommand.servers =
    λ ctx db. Lawful-discover_tools a.now db ctx "" [] 500
RouteLawful-caller_route g a (CallerCommand.my_events limit) = tt
RouteLawful-caller_route g a (CallerCommand.list_permitted_tools query limit) =
    λ ctx db. Lawful-discover_tools a.now db ctx query [] limit
RouteLawful-caller_route g a (CallerCommand.search_tools query servers limit) =
    λ ctx db. Lawful-discover_tools a.now db ctx query servers limit
RouteLawful-caller_route g a
      (CallerCommand.call_tool tool arguments server service_account resource) =
    λ ctx w. Lawful-call_tool g.service _ ctx tool arguments server service_account resource w
RouteLawful-caller_route g a (CallerCommand.list_servers enabled_only) = tt
RouteLawful-caller_route g a (CallerCommand.get_server name) = tt

RouteLawful-admin_route :
    (g : Gateway) (a : Arrival) (c : AdminCommand) → RouteLawful (admin_route g a c)
unfolding admin_route
RouteLawful-admin_route g a AdminCommand.list_users = tt
RouteLawful-admin_route g a AdminCommand.list_agents = tt
RouteLawful-admin_route g a AdminCommand.list_service_accounts = tt
RouteLawful-admin_route g a AdminCommand.list_roles = tt
RouteLawful-admin_route g a (AdminCommand.create_user email password display_name roles) =
    λ admin db.
      Leaves-shown db _ _
        (Leaves-create_user_route a.later admin db _ _ email password display_name roles)
RouteLawful-admin_route g a (AdminCommand.get_user id) = tt
RouteLawful-admin_route g a (AdminCommand.get_agent id) = tt
RouteLawful-admin_route g a (AdminCommand.grant_agent user agent scopes) =
    λ admin db. Leaves-status_after db _ _ (Lawful-grant_agent a.later admin db user agent scopes)
RouteLawful-admin_route g a (AdminCommand.revoke_agent user agent) =
    λ admin db. Leaves-status_after db _ _ (Lawful-revoke_agent a.now a.later admin db user agent)
RouteLawful-admin_route g a (AdminCommand.create_agent name kind description owner roles) =
    λ admin db.
      Leaves-shown db _ _
        (Leaves-create_agent_route a.later admin db _ name kind description owner roles)
RouteLawful-admin_route g a (AdminCommand.create_service_account name description roles) =
    λ admin db.
      Leaves-shown db _ _
        (Leaves-create_service_account_route a.later admin db _ name description roles)
RouteLawful-admin_route g a (AdminCommand.grant_service_account sa grantee_type grantee) =
    λ admin db.
      Leaves-status_after db _ _
        (Lawful-grant_service_account_route a.later admin db sa grantee_type grantee)
RouteLawful-admin_route g a (AdminCommand.revoke_service_account sa grantee grantee_type) =
    λ admin db.
      Leaves-status_after db _ _
        (Lawful-revoke_service_account_grant a.now a.later admin db sa grantee grantee_type)
RouteLawful-admin_route g a (AdminCommand.create_api_key name owner_type owner ttl) = λ admin db.
    Leaves-shown db _ _ (
      Leaves-create_api_key a.now a.later admin db (settings_of g) g.hash_secret _ _ _ name
        owner_type owner ttl)
RouteLawful-admin_route g a (AdminCommand.list_api_keys owner) = tt
RouteLawful-admin_route g a (AdminCommand.revoke_api_key id) =
    λ admin db. Lawful-revoke_api_key_route a.now a.later admin db id
RouteLawful-admin_route g a (AdminCommand.put_role body) =
    λ admin db. Leaves-shown db _ _ (Leaves-put_role_route a.later admin db _ body)
RouteLawful-admin_route g a (AdminCommand.get_role name) = tt
RouteLawful-admin_route g a (AdminCommand.apply_bundle bundle) =
    λ admin db. Leaves-shown db _ _ (Leaves-apply_bundle a.later admin db a.drawn bundle)
RouteLawful-admin_route g a (AdminCommand.assign_user_roles id roles) =
    λ admin db. Leaves-shown db _ _ (Leaves-assign_user_roles a.later admin db id roles)
RouteLawful-admin_route g a (AdminCommand.assign_agent_roles id roles) =
    λ admin db. Leaves-shown db _ _ (Leaves-assign_agent_roles a.later admin db id roles)
RouteLawful-admin_route g a (AdminCommand.assign_sa_roles id roles) =
    λ admin db. Leaves-shown db _ _ (Leaves-assign_sa_roles a.later admin db id roles)
RouteLawful-admin_route g a
      (AdminCommand.register_server name endpoint credential_type description audience enabled
        capabilities) =
    λ admin db. Leaves-shown db _ _ (
      Leaves-register_server_route a.later admin db _ name endpoint credential_type description
        audience enabled capabilities)
RouteLawful-admin_route g a (AdminCommand.set_server_enabled name enabled) =
    λ admin db. Leaves-shown db _ _ (Leaves-set_server_enabled a.later admin db name enabled)
RouteLawful-admin_route g a (AdminCommand.delete_server name) =
    λ admin db. Leaves-status_after db _ _ (Lawful-delete_server_route a.later admin db name)
RouteLawful-admin_route g a
      (AdminCommand.register_tool server name description input_schema required tags requires_sa
        default_sa enabled) =
    λ admin db. Leaves-shown db _ _ (
      Leaves-register_tool_route a.later admin db server name description input_schema required tags
        requires_sa default_sa enabled)
RouteLawful-admin_route g a (AdminCommand.list_tools server) = tt
RouteLawful-admin_route g a (AdminCommand.delete_tool name) =
    λ admin db. Leaves-status_after db _ _ (Lawful-delete_tool_route a.later admin db name)
RouteLawful-admin_route g a
      (AdminCommand.store_credential server credential_type payload owner_type owner expires_at) =
    λ admin h. Holds-stored h _ (
      Leaves-store_credential a.later admin h g.service.credentials a.now (a.drawn 0) server
        credential_type payload owner_type owner expires_at)
RouteLawful-admin_route g a (AdminCommand.delete_credential id) =
    λ admin h. Lawful-delete_credential a.later admin h id
RouteLawful-admin_route g a (AdminCommand.list_events filters limit offset) = tt

-- one request of any route
pub Lawful-perform :
    (g : Gateway) (a : Arrival) (c : Command) (s : Running) → Lawfully s (perform g a c s).1
unfolding perform
Lawful-perform g a (Command.login email password) s =
    Lawful-login (settings_of g) g.check_password _ (request_id_of a) a.client email password
      (database s)
Lawful-perform g a (Command.token_exchange token body) s =
    Lawful-exchange_route g _ a.later (request_id_of a) token body (database s)
Lawful-perform g a (Command.as_caller c) s =
    Lawfully-for_caller g a _
      (StepLawful-run_route (caller_route g a c) (RouteLawful-caller_route g a c)) s
Lawful-perform g a (Command.as_admin c) s =
    Lawfully-for_caller g a _
      (StepLawful-for_admin (admin_route g a c) (RouteLawful-admin_route g a c)) s

-- Whatever requests the gateway serves, one after the other, and however each of them ends: sessions and
-- delegations are never removed and only ever revoked, new sessions are those of a human; of a stored API key
-- nothing changes but its last use and its revocation, new keys belong to no user, and audit events are only
-- added, with no secret under a key that names one.
pub Lawful-serve_all :
    (g : Gateway) (requests : List (Arrival × Command)) (s : Running)
    → Lawfully s (serve_all g requests s)
unfolding serve_all respond
Lawful-serve_all g [] s = Lawful-refl (database s)
Lawful-serve_all g ((a, c) ∷ rest) s =
    Lawful-trans (Lawful-perform g a c s) (Lawful-serve_all g rest _)
