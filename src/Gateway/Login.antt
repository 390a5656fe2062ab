-- ===== src/Gateway/Login.antt =====
-- agentid/gateway/api/auth.py: login, introspection and logout, with their audit events.
pub mod Admitted
use agentid_mcp_gateway.Prelude.{
  ℕ, ◌+◌, String, Bool, true, false, not, Option, none, some, List, [], ◌∷◌, ◌==◌, ◌or_else◌,
  truthy, join, if◌then◌else◌,
}
use agentid_mcp_gateway.Config.{Settings}
use agentid_mcp_gateway.Context.{RequestContext, new_context, text_of}
use agentid_mcp_gateway.Errors.{
  Result, ok, raise, error, integrity_error, python_error, Exception, ErrorKind,
}
use agentid_mcp_gateway.Json.{Fields, str, end, field}
use agentid_mcp_gateway.Jwt.{Jwt, Payload}
use agentid_mcp_gateway.Models.{Db, User, Session, Persona, IdentityType}
use agentid_mcp_gateway.Audit.Events.{AuditRecord, log, no_extra, write_event}
use agentid_mcp_gateway.Identity.Sessions.{create_session, revoke_session}
use agentid_mcp_gateway.Identity.Tokens.{TokenClaims, access_payload, verify}
use agentid_mcp_gateway.Identity.Users.{authenticate_user}

-- What one login is given by its surroundings: two readings of the clock, for the session and for the
-- token, and the new ids.
pub record LoginDraw : Type 0 where
  pub now : ℕ
  pub later : ℕ
  pub session_id : String
  pub jti : String

-- The response; the token is its payload.
pub record TokenResponse : Type 0 where
  pub access_token : Payload
  pub expires_in : ℕ
  pub scope : Option String
  pub session_id : String

-- `_failure_record`
abbrev failure_record : ℕ → String → String → String → String → AuditRecord
failure_record now request_id action reason subject = record {
  timestamp = now;
  action = action;
  user_id = none;
  agent_id = none;
  service_account_id = none;
  persona = none;
  execution_identity = none;
  session_id = none;
  request_id = some request_id;
  server = none;
  tool = none;
  resource = none;
  decision = "deny";
  reason = some reason;
  policy = none;
  status_code = none;
  latency_ms = none;
  error = none;
  details = field "subject" (str subject) end;
}

-- `except AuthenticationError`: other exceptions pass without an event
abbrev pub login_failure : ℕ → String → String → Exception → Db → Db
login_failure now request_id email (error ErrorKind.authentication_error code) db =
    write_event (failure_record now request_id "auth.token" code email) db
login_failure now request_id email e db = db

abbrev session_context : String → User → Session → RequestContext
session_context request_id user session = record (new_context request_id Persona.user) {
  user_id = some user.id;
  session_id = some session.id;
}

-- the scopes that `issue_access_token` gives where none are asked for
abbrev pub login_scopes : List String
login_scopes = "mcp:tools" ∷ []

-- the session, the token and the event of a user whose password was verified
unfoldable pub open_session :
    Settings → LoginDraw → String → Option String → User → Db → TokenResponse × Db
open_session s draw request_id client user db =
    let (session, db') =
      create_session draw.now s.session_ttl_seconds draw.session_id IdentityType.user user.id
        Persona.user none client none db in
    (
      record {
        access_token =
            access_payload s draw.later draw.jti user.id Persona.user "user" (some session.id)
              login_scopes none;
        expires_in = s.access_token_ttl_seconds;
        scope = some (join " " login_scopes);
        session_id = session.id;
      },
      log draw.later (session_context request_id user session) "auth.token" "allow"
          (record no_extra { reason = some "password" }) db',
    )

abbrev pub logged_in :
    Settings
    → LoginDraw
    → String
    → Option String
    → String
    → Db
    → Result User
    → Result TokenResponse × Db
logged_in s draw request_id client email db (raise e) =
    (raise e, login_failure draw.now request_id email e db)
logged_in s draw request_id client email db (ok user) =
    let (response, db') = open_session s draw request_id client user db in (ok response, db')

unfoldable pub login :
    Settings
    → (String → Option String → Bool)
    → LoginDraw
    → String
    → Option String
    → String
    → String
    → Db
    → Result TokenResponse × Db
login s check_password draw request_id client email password db =
    logged_in s draw request_id client email db (authenticate_user check_password db email password)

-- `claims.sub == (ctx.user_id or ctx.agent_id or ctx.service_account_id)`: no text equals None
abbrev is_subject : String → Option String → Bool
is_subject sub none = false
is_subject sub (some id) = sub == id

-- `introspect`: the claims of an active token of the caller's own, or none
abbrev own_claims : RequestContext → Result TokenClaims → Result (Option TokenClaims)
own_claims ctx (ok claims) =
    if is_subject claims.sub (ctx.user_id or_else ctx.agent_id or_else ctx.service_account_id)
    then ok (some claims)
    else ok none
own_claims ctx (raise (error ErrorKind.authentication_error code)) = ok none
own_claims ctx (raise e) = raise e

unfoldable pub introspect :
    Jwt → Settings → ℕ → RequestContext → String → Result (Option TokenClaims)
introspect jwt s now ctx token = own_claims ctx (verify jwt s now token none)

unfoldable pub logout : ℕ → ℕ → RequestContext → Db → Db
logout now later ctx db =
    log later ctx "auth.session.revoke" "allow" (record no_extra { reason = some "logout" })
      (if truthy ctx.session_id then revoke_session now (text_of ctx.session_id) db else db)
