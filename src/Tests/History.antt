-- ===== src/Tests/History.antt =====
-- agentid/gateway: requests to a running gateway, one after the other.
use agentid_mcp_gateway.Identity.Users.{get_user}
use agentid_mcp_gateway.Prelude.{
  true, false, none, some, List, [], ◌∷◌, ◌++◌, ◌≡◌, ◌≢◌, ◌⊎◌, refl, arith, strip_prefix, partition,
  lower, strip, words, eqb, ◌==◌, String,
}
use agentid_mcp_gateway.Config.{default_settings}
use agentid_mcp_gateway.Context.{RequestContext, new_context, execution_identity}
use agentid_mcp_gateway.Errors.{ok, raise, error, ErrorKind, status_code}
use agentid_mcp_gateway.Json.{end}
use agentid_mcp_gateway.Models.{Db, Session, ApiKey, AuditEvent, IdentityType, Persona}
use agentid_mcp_gateway.Identity.ApiKeys.{parse_api_key, verify_api_key}
use agentid_mcp_gateway.Identity.Delegation.{get_delegation}
use agentid_mcp_gateway.Identity.Sessions.{get_session}
use agentid_mcp_gateway.Identity.Tokens.{TokenClaims, from_payload, verify}
use agentid_mcp_gateway.Gateway.App.{Gateway, Arrival, Running, refused, database}
use agentid_mcp_gateway.Gateway.App.Access.{
  Limited, Administrator, administered, authenticated, full_window_refused, unauthenticated_refused,
}
use agentid_mcp_gateway.Gateway.App.Routes.{perform, respond, serve_all}
use agentid_mcp_gateway.Gateway.Auth.{
  from_claims, authenticate, extract_credential, caller_of, check_session, subject_context,
  user_context,
}
use agentid_mcp_gateway.Gateway.Commands.{Command, CallerCommand, AdminCommand}
use agentid_mcp_gateway.Gateway.Deps.{rate_limit_key}
use agentid_mcp_gateway.Gateway.RateLimit.{Window, window_of, new_limiter}
use agentid_mcp_gateway.History.Evolution.{Every, none_left}
use agentid_mcp_gateway.History.Ledger.{Lawful, NewEvent, NewKey}
use agentid_mcp_gateway.History.Requests.{Lawful-serve_all}
use agentid_mcp_gateway.History.Guarantees.{
  audit_trail_append_only, no_key_of_a_user, revoked_delegation_forever, revoked_key_forever,
  revoked_session_forever,
}
use agentid_mcp_gateway.Tests.Data.{
  db, login_session, revoked_delegation, alice_payload, helper_ctx, alice_ctx,
}
use agentid_mcp_gateway.Tests.Gateway.{service, world}

abbrev gateway : Gateway
gateway = record {
  service = service;
  check_secret = λ secret hash. true;
  check_password = λ password hash. true;
  hash_secret = λ secret. "hash";
  hash_password = λ password. "hash";
  message = λ e. "message";
  tie = λ a b. true;
}

-- a request with alice's token
abbrev arrival : Arrival
arrival = record {
  request_id_header = some "req_3";
  authorization = some "Bearer token";
  x_api_key = none;
  client = none;
  now = 5;
  later = 6;
  monotonic = 7;
  elapsed = 3;
  drawn_request_id = "aa";
  drawn = λ n. "drawn";
}

-- one without a credential
abbrev anonymous : Arrival
anonymous = record arrival { authorization = none }

abbrev revoked_session : Session
revoked_session = record login_session { revoked_at = some 4 }

abbrev revoked_key : ApiKey
revoked_key = record {
  id = "key_1";
  name = "ci";
  key_id = "a1";
  secret_hash = "h";
  owner_type = IdentityType.agent;
  owner_id = "agt_helper";
  expires_at = none;
  revoked_at = some 4;
  last_used_at = none;
}

abbrev stored : Db
stored = record db { sessions = revoked_session ∷ []; api_keys = revoked_key ∷ [] }

abbrev running : Running
running = record {
  world = record world { holdings = record world.holdings { db = stored } };
  limiter = new_limiter none none default_settings;
}

-- a login, a call of a tool, a new key, and a logout
abbrev requests : List (Arrival × Command)
requests =
    (arrival, Command.login "alice@example.com" "secret")
    ∷ (
      arrival,
      Command.as_caller (CallerCommand.call_tool "github.create_issue" end none none none),
    )
    ∷ (
      arrival,
      Command.as_admin (AdminCommand.create_api_key "ci" IdentityType.agent "agt_helper" none),
    )
    ∷ (arrival, Command.as_caller CallerCommand.logout)
    ∷ []

abbrev session_claims : TokenClaims
unfolding from_payload
session_claims = record (from_payload alice_payload) { session_id = some "ses_1" }

session_found : get_session (database running) "ses_1" ≡ some revoked_session
unfolding get_session
session_found = refl

revoked_session_forever_example :
    from_claims 20 (database (serve_all gateway requests running)) session_claims "req_4" none
    ≢ ok alice_ctx
unfolding session_claims
revoked_session_forever_example =
    revoked_session_forever gateway requests running "ses_1" revoked_session 4 20 session_claims
      "req_4" none alice_ctx session_found refl refl refl

abbrev delegated_claims : TokenClaims
unfolding from_payload
delegated_claims = record (from_payload alice_payload) {
  act_sub = some "agt_helper";
  delegation_id = some "dlg_2";
}

delegation_found : get_delegation (database running) "dlg_2" ≡ some revoked_delegation
unfolding get_delegation
delegation_found = refl

revoked_delegation_forever_example :
    from_claims 20 (database (serve_all gateway requests running)) delegated_claims "req_4" none
    ≢ ok helper_ctx
unfolding delegated_claims
revoked_delegation_forever_example =
    revoked_delegation_forever gateway requests running "dlg_2" revoked_delegation 20
      delegated_claims "req_4" none helper_ctx delegation_found refl refl refl refl

Lawful-serve_all_example : Lawful (database running) (database (serve_all gateway requests running))
Lawful-serve_all_example = Lawful-serve_all gateway requests running

audit_trail_append_only_example :
    (new : List AuditEvent) × ((database (serve_all gateway requests running)).audit_events
      ≡ (database running).audit_events ++ new)
    × Every NewEvent new
audit_trail_append_only_example = audit_trail_append_only gateway requests running

abbrev keyless : Running
keyless = record running { world = world }

no_key_of_a_user_example : Every NewKey (database (serve_all gateway requests keyless)).api_keys
no_key_of_a_user_example = no_key_of_a_user gateway requests keyless none_left

key_parsed : parse_api_key default_settings "aid_sk_a1.secret" ≡ ok ("a1", "secret")
unfolding parse_api_key strip_prefix partition
key_parsed = refl

revoked_key_forever_example :
    verify_api_key default_settings
      (λ secret hash. true)
      20
      "aid_sk_a1.secret"
      (database (serve_all gateway requests running))
    ≢ ok (revoked_key, stored)
revoked_key_forever_example =
    revoked_key_forever gateway requests running "aid_sk_a1.secret" "a1" "secret" revoked_key 4 20
      (λ secret hash. true) (revoked_key, stored) key_parsed refl refl

nobody :
    authenticated gateway anonymous running
    ≡ raise (error ErrorKind.authentication_error "missing_credential")
unfolding authenticate extract_credential caller_of
nobody = refl

administered_example :
    ((perform gateway arrival (Command.as_admin AdminCommand.list_users) running).1.world
      ≡ running.world)
    ⊎ Administrator gateway arrival running
administered_example = administered gateway arrival running AdminCommand.list_users

-- alice's window is full
abbrev full : Window
full = record { count = 5; reset_at = 100 }

abbrev busy : Running
busy = record running {
  limiter = record {
    enabled = true;
    limit = 5;
    window_seconds = 60;
    windows = ("usr_alice", full) ∷ [];
  };
}

abbrev claimed : RequestContext
claimed = record (new_context "req_3" Persona.user) {
  user_id = some "usr_alice";
  token_id = some "jti_0";
  scopes = "mcp:tools" ∷ [];
  issued_at = some 0;
  expires_at = some 3600000000;
}

alice_authenticated : authenticated gateway arrival busy ≡ ok (claimed, stored)
unfolding authenticate extract_credential partition lower caller_of strip_prefix strip verify
    from_claims from_payload check_session subject_context user_context get_user words
alice_authenticated = refl

window_full : window_of (rate_limit_key claimed) busy.limiter.windows ≡ some full
unfolding window_of rate_limit_key execution_identity
window_full = refl

unauthenticated_refused_example :
    (kind : ErrorKind) × (code : String) × (error ErrorKind.authentication_error
        "missing_credential"
      ≡ error kind code)
    × ((status_code kind ≡ 401) ⊎ (status_code kind ≡ 403))
    × (respond gateway anonymous (Command.as_caller CallerCommand.whoami) running
        ≡ (refused (status_code kind) code "req_3" (eqb (status_code kind) 401), running))
    × (respond gateway anonymous (Command.as_admin AdminCommand.list_users) running
        ≡ (refused (status_code kind) code "req_3" (eqb (status_code kind) 401), running))
unauthenticated_refused_example =
    unauthenticated_refused gateway anonymous running CallerCommand.whoami AdminCommand.list_users
      (error ErrorKind.authentication_error "missing_credential") nobody

full_window_refused_example :
    (windows : List (String × Window)) × Limited gateway arrival busy
      (Command.as_caller CallerCommand.whoami)
      (record busy.limiter { windows = windows })
    × Limited gateway arrival busy
        (Command.as_admin AdminCommand.list_users)
        (record busy.limiter { windows = windows })
    × (window_of (rate_limit_key claimed) windows ≡ some (record full { count = 6 }))
    × ((key : String)
        → (rate_limit_key claimed == key) ≡ false
        → window_of key windows ≡ window_of key busy.limiter.windows)
full_window_refused_example =
    full_window_refused gateway arrival busy CallerCommand.whoami AdminCommand.list_users claimed
      stored full alice_authenticated refl window_full (omega arith) (omega arith)
