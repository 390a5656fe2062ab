-- ===== src/Gateway/Exchange/Route.antt =====
-- agentid/gateway/api/auth.py: the route `token_exchange` with its audit events. A token that is refused
-- before the exchange leaves none.
pub mod Recorded
use agentid_mcp_gateway.Prelude.{ℕ, String, Option, none, some, ◌≡◌, if◌then◌else◌}
use agentid_mcp_gateway.Config.{Settings}
use agentid_mcp_gateway.Context.{RequestContext, new_context}
use agentid_mcp_gateway.Errors.{Result, ok, raise, error, Exception, ◌>>=◌, ◌>>◌}
use agentid_mcp_gateway.Json.{field, str, end}
use agentid_mcp_gateway.Jwt.{Jwt}
use agentid_mcp_gateway.Models.{Db, Agent, Persona}
use agentid_mcp_gateway.Audit.Events.{log, no_extra}
use agentid_mcp_gateway.Identity.Agents.{resolve_agent}
use agentid_mcp_gateway.Identity.Tokens.{TokenClaims, verify}
use agentid_mcp_gateway.Gateway.Auth.{check_session}
use agentid_mcp_gateway.Gateway.Exchange.{
  Draw, ExchangeRequest, ExchangeResult, check_subject, exchange_for_delegation, requested_scopes,
}

-- `getattr(exc, "code", "delegation_failed")`
abbrev failure_code : Exception → String
failure_code (error kind code) = code
failure_code e = "delegation_failed"

abbrev pub subject_of : String → TokenClaims → RequestContext
subject_of request_id claims = record (new_context request_id Persona.user) {
  user_id = some claims.sub;
  session_id = claims.session_id;
}

-- `agent.id if agent else None`
abbrev id_of : Option Agent → Option String
id_of none = none
id_of (some a) = some a.id

-- The event of an exchange that was tried; `at` is the time of its record.
abbrev pub audited :
    (Exception → String)
    → ℕ
    → RequestContext
    → ExchangeRequest
    → Db
    → Result (ExchangeResult × Db)
    → Result ExchangeResult × Db
audited message at ctx body db (raise e) = (
  raise e,
  log at ctx "auth.delegate" "deny"
      (record no_extra {
        reason = some (failure_code e);
        error = some (message e);
        details = field "requested_agent" (str body.actor) end;
      })
      db,
)
audited message at ctx body db (ok (result, db')) = (
  ok result,
  log at (record ctx { agent_id = id_of (resolve_agent db' body.actor) }) "auth.delegate" "allow"
      (record no_extra {
        reason = some "delegated";
        details =
            field "agent" (str body.actor) (field "delegation_id" (str result.delegation_id) end);
      })
      db',
)

-- what comes before the exchange
unfoldable pub subject_claims : Jwt → Settings → ℕ → String → Db → Result TokenClaims
subject_claims jwt s now token db = do
  claims ← verify jwt s now token none
  check_subject claims
  check_session now db claims
  ok claims

abbrev pub exchanged :
    (Exception → String)
    → Settings
    → Draw
    → ℕ
    → String
    → ExchangeRequest
    → Db
    → Result TokenClaims
    → Result ExchangeResult × Db
exchanged message s draw at request_id body db (raise e) = (raise e, db)
exchanged message s draw at request_id body db (ok claims) =
    audited message at (subject_of request_id claims) body db (
      exchange_for_delegation s draw claims.sub body claims.session_id (requested_scopes body.scope)
        db)

unfoldable pub exchange_route :
    Jwt
    → (Exception → String)
    → Settings
    → Draw
    → ℕ
    → String
    → String
    → ExchangeRequest
    → Db
    → Result ExchangeResult × Db
exchange_route jwt message s draw at request_id token body db =
    exchanged message s draw at request_id body db (subject_claims jwt s draw.now token db)
