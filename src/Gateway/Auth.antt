-- ===== src/Gateway/Auth.antt =====
-- agentid/gateway/middleware/auth.py: the context of a request from the credential that it presents.
-- The database comes back with it, since a key that is used is stamped.
pub mod Keys
pub mod Refusals
pub mod Backing
pub mod Personas
use agentid_mcp_gateway.Prelude.{
  ℕ, String, Bool, true, false, not, ◌&&◌, Option, none, some, List, [], ◌∷◌, ◌==◌, has_prefix,
  is_some, truthy, lower, strip, partition, if◌then◌else◌,
}
use agentid_mcp_gateway.Config.{Settings}
use agentid_mcp_gateway.Context.{RequestContext, new_context, text_of}
use agentid_mcp_gateway.Errors.{Result, ok, raise, error, ErrorKind, ◌>>=◌, ◌>>◌, raise_if}
use agentid_mcp_gateway.Jwt.{Jwt}
use agentid_mcp_gateway.Models.{Db, User, Agent, ApiKey, IdentityType, Persona}
use agentid_mcp_gateway.Identity.Users.{get_user}
use agentid_mcp_gateway.Identity.Agents.{get_agent}
use agentid_mcp_gateway.Identity.ApiKeys.{verify_api_key}
use agentid_mcp_gateway.Identity.Delegation.{is_autonomous, require_active_delegation}
use agentid_mcp_gateway.Identity.Sessions.{require_active_session}
use agentid_mcp_gateway.Identity.Tokens.{TokenClaims, is_delegated, verify, downstream}

abbrev pub is_user_persona : Persona → Bool
is_user_persona Persona.user = true
is_user_persona Persona.non_user = false

-- A bare API key needs no scheme; a token does.
unfoldable pub extract_credential :
    Option String → Option String → Settings → Result (Option String)
extract_credential authorization api_key_header s =
    let header = text_of authorization in
    let (scheme, value) = partition b' ' header in
    if truthy api_key_header
    then ok (some (strip (text_of api_key_header)))
    else if not (truthy authorization)
    then ok none
    else if value == ""
    then ok (if has_prefix s.api_key_prefix header then some (strip header) else none)
    else if not (lower scheme == "bearer")
    then raise (error ErrorKind.authentication_error "unsupported_scheme")
    else ok (some (strip value))

-- `agent = get_agent(...)` with the check that it is there and active
abbrev pub active_agent : Db → String → Result Agent
active_agent db agent_id = elim (get_agent db agent_id) [
  | none ↦ raise (error ErrorKind.authentication_error "agent_disabled")
  | some a ↦
      if a.is_active then ok a else raise (error ErrorKind.authentication_error "agent_disabled")
]

-- the same for a user
abbrev pub active_user : Db → String → Result User
active_user db user_id = elim (get_user db user_id) [
  | none ↦ raise (error ErrorKind.authentication_error "user_disabled")
  | some u ↦
      if u.is_active then ok u else raise (error ErrorKind.authentication_error "user_disabled")
]

-- the fields of a context that an API key gives
abbrev pub key_context : String → Option String → RequestContext
key_context request_id client = record (new_context request_id Persona.non_user) {
  client = client;
  scopes = "mcp:tools" ∷ [];
}

unfoldable pub owner_context : Db → ApiKey → String → Option String → Result RequestContext
owner_context db key request_id client = elim key.owner_type [
  | IdentityType.agent ↦ do
    a ← active_agent db key.owner_id
    ok (record (key_context request_id client) { agent_id = some a.id })
  | IdentityType.service_account ↦
      ok (record (key_context request_id client) { service_account_id = some key.owner_id })
  | IdentityType.user ↦ raise (error ErrorKind.authentication_error "api_key_persona_violation")
  | IdentityType.gateway ↦ raise (error ErrorKind.authentication_error "api_key_persona_violation")
]

unfoldable pub from_api_key :
    (String → String → Bool)
    → ℕ
    → Db
    → String
    → String
    → Option String
    → Settings
    → Result (RequestContext × Db)
from_api_key check_secret now db raw request_id client s = do
  r ← verify_api_key s check_secret now raw db
  ctx ← owner_context r.1 r.0 request_id client
  ok (ctx, r.1)

-- the fields of a context that every token gives
abbrev pub token_context : TokenClaims → String → Option String → Persona → RequestContext
token_context claims request_id client persona = record (new_context request_id persona) {
  session_id = claims.session_id;
  token_id = some claims.jti;
  scopes = claims.scopes;
  client = client;
  issued_at = some claims.issued_at;
  expires_at = some claims.expires_at;
}

-- `if claims.session_id: require_active_session(...)`
unfoldable pub check_session : ℕ → Db → TokenClaims → Result (Unit {0})
check_session now db claims =
    if truthy claims.session_id
    then (require_active_session now db (text_of claims.session_id) >>= λ _. ok tt)
    else ok tt

-- `if claims.delegation_id: require_active_delegation(...)`
unfoldable pub check_delegation : ℕ → Db → TokenClaims → Result (Unit {0})
check_delegation now db claims =
    if truthy claims.delegation_id
    then (require_active_delegation now db (text_of claims.delegation_id) >>= λ _. ok tt)
    else ok tt

unfoldable pub delegated_context :
    ℕ → Db → TokenClaims → String → Option String → Result RequestContext
delegated_context now db claims request_id client = do
  raise_if (not (is_user_persona claims.persona)) ErrorKind.persona_violation "persona_mismatch"
  user ← active_user db claims.sub
  agent ← active_agent db (text_of claims.act_sub)
  raise_if (is_autonomous agent.kind) ErrorKind.persona_violation "autonomous_agent_delegation"
  check_delegation now db claims
  ok (record (token_context claims request_id client Persona.user) {
    user_id = some user.id;
    agent_id = some agent.id;
    delegation_id = claims.delegation_id;
  })

unfoldable pub user_context : Db → TokenClaims → String → Option String → Result RequestContext
user_context db claims request_id client = do
  raise_if (not (is_user_persona claims.persona)) ErrorKind.persona_violation "persona_mismatch"
  user ← active_user db claims.sub
  ok (record (token_context claims request_id client Persona.user) { user_id = some user.id })

unfoldable pub agent_context : Db → TokenClaims → String → Option String → Result RequestContext
agent_context db claims request_id client = do
  raise_if (is_user_persona claims.persona) ErrorKind.persona_violation "persona_mismatch"
  agent ← active_agent db claims.sub
  ok (record (token_context claims request_id client Persona.non_user) { agent_id = some agent.id })

unfoldable pub account_context : TokenClaims → String → Option String → Result RequestContext
account_context claims request_id client = do
  raise_if (is_user_persona claims.persona) ErrorKind.persona_violation "persona_mismatch"
  ok (record (token_context claims request_id client Persona.non_user) {
    service_account_id = some claims.sub;
  })

unfoldable pub subject_context :
    ℕ → Db → TokenClaims → String → Option String → Result RequestContext
subject_context now db claims request_id client =
    if is_delegated claims
    then delegated_context now db claims request_id client
    else if claims.subject_type == "user"
    then user_context db claims request_id client
    else if claims.subject_type == "agent"
    then agent_context db claims request_id client
    else if claims.subject_type == "service_account"
    then account_context claims request_id client
    else raise (error ErrorKind.authentication_error "unsupported_subject")

unfoldable pub from_claims : ℕ → Db → TokenClaims → String → Option String → Result RequestContext
from_claims now db claims request_id client = do
  raise_if (claims.token_type == downstream) ErrorKind.authentication_error "wrong_token_type"
  check_session now db claims
  subject_context now db claims request_id client

abbrev pub from_token :
    Jwt → ℕ → Db → String → String → Option String → Settings → Result (RequestContext × Db)
from_token jwt now db raw request_id client s = do
  claims ← verify jwt s now raw none
  ctx ← from_claims now db claims request_id client
  ok (ctx, db)

-- the caller of the credential that was presented
unfoldable pub caller_of :
    Jwt
    → (String → String → Bool)
    → ℕ
    → Db
    → String
    → Option String
    → Settings
    → Option String
    → Result (RequestContext × Db)
caller_of jwt check_secret now db request_id client s none =
    raise (error ErrorKind.authentication_error "missing_credential")
caller_of jwt check_secret now db request_id client s (some raw) =
    if has_prefix s.api_key_prefix raw
    then from_api_key check_secret now db raw request_id client s
    else from_token jwt now db raw request_id client s

unfoldable pub authenticate :
    Jwt
    → (String → String → Bool)
    → ℕ
    → Db
    → Option String
    → Option String
    → String
    → Option String
    → Settings
    → Result (RequestContext × Db)
authenticate jwt check_secret now db authorization api_key_header request_id client s =
    extract_credential authorization api_key_header s
    >>= caller_of jwt check_secret now db request_id client s
