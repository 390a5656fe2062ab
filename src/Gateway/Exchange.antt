-- ===== src/Gateway/Exchange.antt =====
-- agentid/gateway/api/auth.py, `token_exchange`, and credentials/token_exchange.py,
-- `exchange_for_delegation`: a user's token, exchanged for one that an agent presents.
pub mod Subjects
pub mod Completeness
pub mod Route
use agentid_mcp_gateway.Prelude.{
  ℕ, String, Bool, true, false, not, ◌&&◌, ◌||◌, Option, none, some, List, [], ◌∷◌, ◌==◌, ◌≡◌, refl,
  arith, truthy, words, is_empty, join, contains, if◌then◌else◌,
}
use agentid_mcp_gateway.Config.{Settings}
use agentid_mcp_gateway.Context.{RequestContext, new_context, text_of}
use agentid_mcp_gateway.Errors.{
  Result, ok, raise, error, ErrorKind, ◌>>=◌, ◌>>◌, raise_if, >>=-eq-ok, raise_if-eq-ok,
}
use agentid_mcp_gateway.Jwt.{Payload}
use agentid_mcp_gateway.Models.{Db, User, Persona}
use agentid_mcp_gateway.Identity.Users.{require_user}
use agentid_mcp_gateway.Identity.Delegation.{DelegationResult, delegate, delegation_target}
use agentid_mcp_gateway.Identity.Tokens.{TokenClaims, downstream, scope_claim}
use agentid_mcp_gateway.Gateway.Auth.{check_session, is_user_persona}

abbrev pub grant_type_token_exchange : String
grant_type_token_exchange = "urn:ietf:params:oauth:grant-type:token-exchange"

abbrev pub token_type_access : String
token_type_access = "urn:ietf:params:oauth:token-type:access_token"

abbrev pub token_type_jwt : String
token_type_jwt = "urn:ietf:params:oauth:token-type:jwt"

-- The body of the request.
pub record ExchangeRequest : Type 0 where
  pub actor : String
  pub grant_type : String
  pub requested_token_type : String
  pub scope : Option String

-- `scope` is the text of the scopes; the token is its payload.
pub record ExchangeResult : Type 0 where
  pub access_token : Payload
  pub expires_in : ℕ
  pub scope : Option String
  pub delegation_id : String

-- What one exchange is given by its surroundings: two readings of the clock and the new ids.
pub record Draw : Type 0 where
  pub now : ℕ
  pub later : ℕ
  pub fresh : String
  pub jti : String

unfoldable pub exchange_for_delegation :
    Settings
    → Draw
    → String
    → ExchangeRequest
    → Option String
    → List String
    → Db
    → Result (ExchangeResult × Db)
exchange_for_delegation s draw user_id body session_id scopes db = do
  raise_if (not (body.grant_type == grant_type_token_exchange)) ErrorKind.validation_error
      "unsupported_grant_type"
  raise_if (not (contains body.requested_token_type (token_type_access ∷ token_type_jwt ∷ [])))
      ErrorKind.validation_error "unsupported_token_type"
  user ← require_user db user_id
  result ←
      delegate s draw.now draw.later draw.fresh draw.jti user body.actor session_id scopes none db
  ok (
    record {
      access_token = result.0.token;
      expires_in = s.delegated_token_ttl_seconds;
      scope = scope_claim scopes;
      delegation_id = result.0.delegation.id;
    },
    result.1,
  )

-- `tuple(body.scope.split()) if body.scope else ("mcp:tools",)`
abbrev pub requested_scopes : Option String → List String
requested_scopes scope = if truthy scope then words (text_of scope) else "mcp:tools" ∷ []

-- Who may exchange: the checks on the claims of the subject's token.
unfoldable pub check_subject : TokenClaims → Result (Unit {0})
check_subject claims = do
  raise_if (claims.token_type == downstream) ErrorKind.authentication_error "wrong_token_type"
  raise_if (not (claims.subject_type == "user") || not (is_user_persona claims.persona))
      ErrorKind.persona_violation "persona_violation"

-- `token_exchange` once the token is verified, without its audit event
unfoldable pub token_exchange :
    Settings → Draw → TokenClaims → ExchangeRequest → Db → Result (ExchangeResult × Db)
token_exchange s draw claims body db = do
  check_subject claims
  check_session draw.now db claims
  exchange_for_delegation s draw claims.sub body claims.session_id (requested_scopes body.scope) db
