-- ===== src/Identity/Tokens.antt =====
-- agentid/identity/tokens.py: the tokens of the gateway. A token is its payload, signed by the
-- library; the functions here build payloads and read claims from them.
use agentid_mcp_gateway.Prelude.{
  ℕ, ◌+◌, ◌/◌, ◌<◌, String, Bool, ◌&&◌, Option, none, some, List, [], ◌==◌, ◌+++◌, ◌≡◌, refl, arith,
  is_empty, is_some, truthy, ◌or_else◌, join, words, if◌then◌else◌, Option-cases, inl, inr,
}
use agentid_mcp_gateway.Config.{Settings}
use agentid_mcp_gateway.Context.{text_of}
use agentid_mcp_gateway.Errors.{Result, ok, raise, error, ErrorKind}
use agentid_mcp_gateway.Errors.Fails.{Fails, Denied-identity}
use agentid_mcp_gateway.Identity.Sessions.{seconds, ttl_or}
use agentid_mcp_gateway.Jwt.{
  Payload, Jwt, Decoded, valid, expired_signature, invalid_audience, invalid_issuer, invalid_token,
}
use agentid_mcp_gateway.Models.{Persona}

abbrev pub access : String
access = "access"

abbrev pub delegated : String
delegated = "delegated"

abbrev pub downstream : String
downstream = "downstream"

pub record TokenClaims : Type 0 where
  pub sub : String
  pub persona : Persona
  pub token_type : String
  pub audience : String
  pub issuer : String
  pub jti : String
  pub issued_at : ℕ
  pub expires_at : ℕ
  pub act_sub : Option String
  pub subject_type : String
  pub session_id : Option String
  pub delegation_id : Option String
  pub service_account_id : Option String
  pub scopes : List String

-- `TokenClaims.is_delegated`
abbrev pub is_delegated : TokenClaims → Bool
is_delegated c = is_some c.act_sub

abbrev pub or_default {ℓ} : {A : Type ℓ} → Option A → A → A
or_default none d = d
or_default (some a) d = a

-- a text that counts as absent when it is empty
abbrev pub if_truthy : Option String → Option String
if_truthy o = if truthy o then o else none

-- `tuple(scope.split()) if scope else ()`
abbrev pub scopes_of : Option String → List String
scopes_of scope = if truthy scope then words (text_of scope) else []

-- `TokenClaims.from_payload`
unfoldable pub from_payload : Payload → TokenClaims
from_payload p = record {
  sub = p.sub;
  persona = or_default p.persona Persona.user;
  token_type = or_default p.typ access;
  audience = p.aud;
  issuer = p.iss;
  jti = p.jti;
  issued_at = seconds p.iat;
  expires_at = seconds p.exp;
  act_sub = if_truthy p.act_sub;
  subject_type = or_default p.sub_type "user";
  session_id = p.sid;
  delegation_id = p.did;
  service_account_id = p.execution_identity;
  scopes = scopes_of p.scope;
}

abbrev pub scope_claim : List String → Option String
scope_claim scopes = if is_empty scopes then none else some (join " " scopes)

-- `_base_payload`; `now` is in microseconds and `jti` is the random id
abbrev pub base_payload :
    Settings → ℕ → String → String → Persona → String → String → ℕ → List String → Payload
base_payload s now jti subject persona token_type audience ttl_seconds scopes = record {
  iss = s.jwt_issuer;
  aud = audience;
  sub = subject;
  persona = some persona;
  typ = some token_type;
  iat = now / 1000000;
  exp = (now + seconds ttl_seconds) / 1000000;
  jti = jti;
  scope = scope_claim scopes;
  sub_type = none;
  sid = none;
  did = none;
  act_sub = none;
  on_behalf_of = none;
  execution_identity = none;
  tool = none;
  rid = none;
}

unfoldable pub access_payload :
    Settings
    → ℕ
    → String
    → String
    → Persona
    → String
    → Option String
    → List String
    → Option ℕ
    → Payload
access_payload s now jti subject persona subject_type session_id scopes ttl_seconds =
    let p =
      base_payload s now jti subject persona access s.jwt_audience
        (ttl_or ttl_seconds s.access_token_ttl_seconds) scopes in
    record p { sub_type = some subject_type; sid = if_truthy session_id }

-- `sub` is the user, `act.sub` the agent
unfoldable pub delegated_payload :
    Settings
    → ℕ
    → String
    → String
    → String
    → Option String
    → Option String
    → List String
    → Option ℕ
    → Payload
delegated_payload s now jti user_id agent_id session_id delegation_id scopes ttl_seconds =
    let p =
      base_payload s now jti user_id Persona.user delegated s.jwt_audience
        (ttl_or ttl_seconds s.delegated_token_ttl_seconds) scopes in
    record p {
      sub_type = some "user";
      act_sub = some agent_id;
      sid = if_truthy session_id;
      did = if_truthy delegation_id;
    }

-- `audience or f"{prefix}:{server_name}"`
abbrev pub downstream_audience : Settings → Option String → String → String
downstream_audience s audience server_name =
    if truthy audience
    then text_of audience
    else s.downstream_audience_prefix +++ ":" +++ server_name

abbrev pub downstream_subject_type : Option String → Option String → String → String
downstream_subject_type service_account_id user_id subject =
    if truthy service_account_id
    then "service_account"
    else if truthy user_id && subject == text_of user_id
    then "user"
    else "agent"

unfoldable pub downstream_claims :
    Settings
    → ℕ
    → String
    → String
    → Option String
    → Option String
    → Option String
    → Option String
    → Persona
    → Option String
    → Option String
    → List String
    → Option ℕ
    → String
    → Payload
downstream_claims s now jti server_name audience user_id agent_id service_account_id persona tool
      request_id scopes ttl_seconds subject =
    let p =
      base_payload s now jti subject persona downstream (downstream_audience s audience server_name)
        (ttl_or ttl_seconds s.downstream_token_ttl_seconds) scopes in
    record p {
      act_sub = if_truthy agent_id;
      on_behalf_of = if_truthy user_id;
      execution_identity = if_truthy service_account_id;
      sub_type = some (downstream_subject_type service_account_id user_id subject);
      tool = if_truthy tool;
      rid = if_truthy request_id;
    }

-- The subject is the execution identity: the service account, or else the user, or else the agent.
unfoldable pub downstream_payload :
    Settings
    → ℕ
    → String
    → String
    → Option String
    → Option String
    → Option String
    → Option String
    → Persona
    → Option String
    → Option String
    → List String
    → Option ℕ
    → Result Payload
downstream_payload s now jti server_name audience user_id agent_id service_account_id persona tool
      request_id scopes ttl_seconds =
    elim (service_account_id or_else user_id or_else agent_id) [
      | none ↦ raise (error ErrorKind.authentication_error "unauthenticated")
      | some subject ↦ ok (
          downstream_claims s now jti server_name audience user_id agent_id service_account_id
            persona tool request_id scopes ttl_seconds subject)
    ]

pub downstream_payload-ok :
    (s : Settings) (now : ℕ) (jti server_name : String) (audience user agent sa : Option String)
    (persona : Persona) (tool request_id : Option String) (scopes : List String) (ttl : Option ℕ)
    {p : Payload}
    → downstream_payload s now jti server_name audience user agent sa persona tool request_id scopes
        ttl
      ≡ ok p
    → (subject : String) × ((sa or_else user or_else agent) ≡ some subject)
      × (p
          ≡ downstream_claims s now jti server_name audience user agent sa persona tool request_id
              scopes ttl subject)
unfolding downstream_payload
downstream_payload-ok s now jti server_name audience user agent sa persona tool request_id scopes
      ttl h =
    elim (Option-cases (sa or_else user or_else agent)) [
      | inl e ↦ absurd (ground arith)
      | inr (subject, e) ↦ (subject, e, ground arith)
    ]

-- `TokenService.verify`, at a time in microseconds
claims_of : Decoded → Result TokenClaims
claims_of (valid p) = ok (from_payload p)
claims_of expired_signature = raise (error ErrorKind.authentication_error "token_expired")
claims_of invalid_audience = raise (error ErrorKind.authentication_error "invalid_audience")
claims_of invalid_issuer = raise (error ErrorKind.authentication_error "invalid_token")
claims_of invalid_token = raise (error ErrorKind.authentication_error "invalid_token")

unfoldable pub verify : Jwt → Settings → ℕ → String → Option String → Result TokenClaims
unfolding claims_of
verify jwt s now token audience = claims_of (
    jwt.decode (now / 1000000) 0 token s.secret_key (text_of (audience or_else some s.jwt_audience))
      s.jwt_issuer)

claims_of-ok :
    (r : Decoded) {c : TokenClaims}
    → claims_of r ≡ ok c
    → (p : Payload) × (r ≡ valid p) × (c ≡ from_payload p)
unfolding claims_of
claims_of-ok (valid p) h = (p, refl, ground arith)
claims_of-ok expired_signature h = absurd (ground arith)
claims_of-ok invalid_audience h = absurd (ground arith)
claims_of-ok invalid_issuer h = absurd (ground arith)
claims_of-ok invalid_token h = absurd (ground arith)

Fails-claims_of : (r : Decoded) → Fails (claims_of r)
unfolding claims_of
Fails-claims_of (valid p) = tt
Fails-claims_of expired_signature = Denied-identity "token_expired"
Fails-claims_of invalid_audience = Denied-identity "invalid_audience"
Fails-claims_of invalid_issuer = Denied-identity "invalid_token"
Fails-claims_of invalid_token = Denied-identity "invalid_token"

-- a token that does not verify does not authenticate its caller
pub Fails-verify :
    (jwt : Jwt) (s : Settings) (now : ℕ) (token : String) (audience : Option String)
    → Fails (verify jwt s now token audience)
unfolding verify
Fails-verify jwt s now token audience = Fails-claims_of _

-- A token is read back until the second in which it expires, where the library decodes what it encoded.
pub verify-encode :
    (jwt : Jwt) (s : Settings) (now : ℕ) (p : Payload)
    → p.aud ≡ s.jwt_audience
    → p.iss ≡ s.jwt_issuer
    → now / 1000000 < p.exp
    → ((t : ℕ)
        → t < p.exp
        → jwt.decode t 0 (jwt.encode p s.secret_key) s.secret_key p.aud p.iss ≡ valid p)
    → verify jwt s now (jwt.encode p s.secret_key) none ≡ ok (from_payload p)
unfolding verify claims_of
verify-encode jwt s now p audience issuer early decodes =
    rw (← audience, ← issuer, decodes (now / 1000000) early) refl
