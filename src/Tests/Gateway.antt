-- ===== src/Tests/Gateway.antt =====
-- agentid/gateway at a small database, with one token and a server that answers.
use agentid_mcp_gateway.Credentials.Cache.{cache_get, cache_set, invalidate}
use agentid_mcp_gateway.Authorization.Engine.Execution.{
  borrow_account, grantee_for, own_account, own_account_checked, resolve_execution_identity,
  use_account,
}
use agentid_mcp_gateway.Audit.Redaction.{is_secret, redact_fields}
use agentid_mcp_gateway.Audit.Events.{from_context, log, to_model, write_event}
use agentid_mcp_gateway.Identity.ServiceAccounts.{
  get_service_account, get_service_account_by_name, may_use_service_account,
  resolve_service_account,
}
use agentid_mcp_gateway.Authorization.Engine.Steps.{
  check_identity, check_scope, check_availability, resolve_principals, check_persona, check_denies,
  check_user_holds, check_agent_holds,
}
use agentid_mcp_gateway.Authorization.Engine.{authorize_tool, base_of, execute_step}
use agentid_mcp_gateway.Registry.Tools.{get_tool, server_of}
use agentid_mcp_gateway.Prelude.{
  ℕ, ◌-◌, String, true, false, none, some, List, [], ◌∷◌, ◌==◌, ◌≡◌, ◌⊎◌, refl, length, has_prefix,
  has_char, partition, lower, strip_prefix, strip, split, join,
}
use agentid_mcp_gateway.Config.{default_settings}
use agentid_mcp_gateway.Context.{RequestContext, new_context, with_tool, execution_identity}
use agentid_mcp_gateway.Errors.{ok}
use agentid_mcp_gateway.Json.{str, obj, end, field, get, value_truthy, get_truthy}
use agentid_mcp_gateway.Models.{Persona, IdentityType, ApiKey, permission}
use agentid_mcp_gateway.Identity.Tokens.{
  TokenClaims, from_payload, verify, downstream, downstream_claims, downstream_payload,
}
use agentid_mcp_gateway.Identity.Agents.{get_agent}
use agentid_mcp_gateway.Identity.Users.{get_user}
use agentid_mcp_gateway.Authorization.Permissions.{
  permits, is_nonempty, denied_by, any_matches, sorted, intersect, allowed_by, matches,
}
use agentid_mcp_gateway.Authorization.Rbac.{
  permissions_for_user, permissions_for_agent, from_roles, roles_of,
  permissions_for_service_account,
}
use agentid_mcp_gateway.Credentials.Secrets.{
  Library, null_provider, api_key_secret, as_header, expiry_of, oauth_secret, open_vault,
  payload_from_secret, refresh, seal_vault,
}
use agentid_mcp_gateway.Credentials.Manager.{
  Manager, audit_fields, candidates, exchange_for_downstream, find_credential, first_owned,
  materialise, resolve,
}
use agentid_mcp_gateway.Gateway.Auth.{
  authenticate, caller_of, extract_credential, from_claims, owner_context, check_session,
  token_context, subject_context, user_context,
}
use agentid_mcp_gateway.Gateway.Auth.Backing.{Backed}
use agentid_mcp_gateway.Gateway.Auth.Personas.{from_claims-Backed, authenticate_user_persona}
use agentid_mcp_gateway.Gateway.RateLimit.{RateLimiter, Window, window_of}
use agentid_mcp_gateway.Gateway.RateLimit.Fairness.{served, requests, min, served_in_window}
use agentid_mcp_gateway.Gateway.Router.{Route, resolve_route, qualify}
use agentid_mcp_gateway.Gateway.Proxy.{
  Client, response, downstream_error_message, is_error, read_answer, request_of, tools_call,
}
use agentid_mcp_gateway.Gateway.Service.{
  World, Service, Moment, call_tool, decision_for, routed, db_of, decide, handled, audit, execute,
  finish, forward, posting, refuse, resolving, summarise_arguments,
}
use agentid_mcp_gateway.Gateway.Service.Audited.{recorded, call_tool_events}
use agentid_mcp_gateway.Gateway.Service.Guarded.{Posted, call_tool-Posted}
use agentid_mcp_gateway.Gateway.Deps.{
  admin_permission, require_admin, permissions_for, delegate_permissions,
}
use agentid_mcp_gateway.Gateway.Deps.Admin.{require_admin_agent_without_roles}
use agentid_mcp_gateway.Tests.Data.{
  db, alice, bare, github, create_issue, helper_ctx, bare_ctx, alice_payload, jwt_of,
}

-- the server answers every request with an empty result
abbrev client : Client
client earlier request = response 200 (some (obj (field "result" (obj end) end)))

abbrev library : Library
library = record {
  encrypt = λ key payload. "sealed";
  decrypt = λ key ciphertext. some (field "api_key" (str "k") end);
  to_text = λ v. "value";
  from_iso = λ s. none;
  to_iso = λ t. "time";
}

abbrev pub manager : Manager
manager = record {
  settings = default_settings;
  library = library;
  jwt = jwt_of alice_payload;
  refresh_registry = record { fallback = null_provider; providers = [] };
}

abbrev pub service : Service
service = record { credentials = manager; client = client; message = λ code. code }

abbrev moment : Moment
moment = record { now = 5; jti = "jti_5"; elapsed = 3 }

abbrev pub world : World
world = record {
  holdings = record {
    db = db;
    cache = record { default_ttl_seconds = 300; leeway_seconds = 30; entries = [] };
  };
  sent = [];
}

call_tool_events_example :
    length
      (db_of
        (call_tool service moment helper_ctx "create_issue" end
          (some "github")
          none
          none
          world).1).audit_events
    ≡ recorded
        (call_tool service moment helper_ctx "create_issue" end (some "github") none none world).0
        (length (db_of world).audit_events)
call_tool_events_example =
    call_tool_events service moment helper_ctx "create_issue" end (some "github") none none world

call_tool-Posted_example :
    ((call_tool service moment helper_ctx "create_issue" end (some "github") none none world).1.sent
      ≡ world.sent)
    ⊎ ((route : Route) × (resolve_route (db_of world) "create_issue" (some "github") ≡ ok route)
        × Posted service moment
            (routed helper_ctx route none)
            (decision_for (routed helper_ctx route none) route none world)
            route
            end
            world
            (call_tool service moment helper_ctx "create_issue" end
              (some "github")
              none
              none
              world).1.sent)
call_tool-Posted_example =
    call_tool-Posted service moment helper_ctx "create_issue" end (some "github") none none world

-- the call does post a request
one_request :
    length
      (call_tool service moment helper_ctx "create_issue" end
        (some "github")
        none
        none
        world).1.sent
    ≡ 1
unfolding call_tool resolve_route qualify has_char get_tool server_of decide decision_for
    authorize_tool check_identity with_tool check_scope check_availability resolve_principals
    get_user handled get_agent check_persona check_denies is_nonempty permissions_for_user
    from_roles roles_of denied_by any_matches sorted permissions_for_agent check_user_holds permits
    allowed_by matches permission split check_agent_holds from_context log to_model write_event
    is_secret redact_fields borrow_account grantee_for own_account own_account_checked
    resolve_execution_identity use_account base_of execute_step permissions_for_service_account
    execution_identity cache_get cache_set invalidate audit_fields candidates
    exchange_for_downstream find_credential first_owned materialise resolve api_key_secret as_header
    expiry_of oauth_secret open_vault payload_from_secret refresh seal_vault
    downstream_error_message is_error read_answer request_of tools_call audit execute finish forward
    posting refuse resolving summarise_arguments get_service_account get_service_account_by_name
    may_use_service_account resolve_service_account downstream_claims downstream_payload join lower
    get value_truthy get_truthy
one_request = refl

abbrev pub alice_claims : TokenClaims
alice_claims = from_payload alice_payload

abbrev claimed : RequestContext
claimed = record (token_context alice_claims "req_3" none Persona.user) {
  user_id = some "usr_alice";
}

claims_accepted : from_claims 5 db alice_claims "req_3" none ≡ ok claimed
unfolding from_claims from_payload check_session subject_context user_context get_user
claims_accepted = refl

from_claims-Backed_example :
    ((alice_claims.token_type == downstream) ≡ false)
    × (check_session 5 db alice_claims ≡ ok tt)
    × Backed 5 db alice_claims claimed
from_claims-Backed_example = from_claims-Backed 5 db alice_claims "req_3" none claims_accepted

logged_in :
    authenticate
      (jwt_of alice_payload)
      (λ a b. true)
      5
      db
      (some "Bearer token")
      none
      "req_3"
      none
      default_settings
    ≡ ok (claimed, db)
unfolding authenticate caller_of extract_credential partition lower strip_prefix strip verify
    from_claims from_payload check_session subject_context user_context get_user
logged_in = refl

authenticate_user_persona_example :
    (raw : String) × (claims : TokenClaims) × (extract_credential
        (some "Bearer token")
        none
        default_settings
      ≡ ok (some raw))
    × (has_prefix default_settings.api_key_prefix raw ≡ false)
    × (verify (jwt_of alice_payload) default_settings 5 raw none ≡ ok claims)
    × Backed 5 db claims claimed
authenticate_user_persona_example =
    authenticate_user_persona (jwt_of alice_payload) (λ a b. true) 5 db (some "Bearer token") none
      "req_3" none default_settings logged_in refl

abbrev revoked_claims : TokenClaims
revoked_claims = record alice_claims { act_sub = some "agt_helper"; delegation_id = some "dlg_2" }

abbrev helper_key : ApiKey
helper_key = record {
  id = "key_1";
  name = "ci";
  key_id = "a1";
  secret_hash = "h";
  owner_type = IdentityType.agent;
  owner_id = "agt_helper";
  expires_at = none;
  revoked_at = none;
  last_used_at = none;
}

abbrev keyed : RequestContext
keyed = record (new_context "req_4" Persona.non_user) {
  agent_id = some "agt_helper";
  scopes = "mcp:tools" ∷ [];
}

key_accepted : owner_context db helper_key "req_4" none ≡ ok keyed
unfolding owner_context get_agent
key_accepted = refl

abbrev opened : Window
opened = record { count = 1; reset_at = 100 }

abbrev limiter : RateLimiter
limiter = record {
  enabled = true;
  limit = 3;
  window_seconds = 60;
  windows = ("usr_alice", opened) ∷ [];
}

abbrev calls : List (ℕ × String)
calls = (1, "usr_alice") ∷ (2, "usr_bob") ∷ (3, "usr_alice") ∷ (4, "usr_alice") ∷ []

served_in_window_example :
    served "usr_alice" calls limiter ≡ min (requests "usr_alice" calls) (3 - 1)
unfolding window_of
served_in_window_example = served_in_window "usr_alice" calls limiter opened refl refl refl

abbrev route_to_issue : Route
route_to_issue = record { tool = create_issue; server = github }

routed_to_issue : resolve_route db "create_issue" (some "github") ≡ ok route_to_issue
unfolding resolve_route qualify has_char get_tool server_of
routed_to_issue = refl

helper_is_admin : require_admin db helper_ctx ≡ ok helper_ctx
unfolding require_admin permissions_for get_user delegate_permissions get_agent permits denied_by
    any_matches sorted is_nonempty permissions_for_agent from_roles roles_of intersect
    permissions_for_user allowed_by matches permissions_for_service_account get_service_account
    split
helper_is_admin = refl

alice_may_administer : permits (permissions_for_user db alice) admin_permission ≡ true
unfolding permits denied_by any_matches sorted permissions_for_user from_roles roles_of allowed_by
    matches
alice_may_administer = refl

require_admin_agent_without_roles_example : require_admin db bare_ctx ≡ ok bare_ctx
unfolding get_user get_agent
require_admin_agent_without_roles_example =
    require_admin_agent_without_roles db bare_ctx "usr_alice" "agt_bare" alice bare refl refl refl
      refl refl refl alice_may_administer
