-- ===== src/Gateway/Auth/Personas.antt =====
-- agentid/gateway/middleware/auth.py: what a context that authentication returns says.
use agentid_mcp_gateway.Prelude.{
  ℕ, String, Bool, true, false, Option, none, some, ◌==◌, ◌≡◌, ◌≢◌, arith, has_prefix, Bool-cases,
  inl, inr, if◌then◌else◌,
}
use agentid_mcp_gateway.Config.{Settings}
use agentid_mcp_gateway.Context.{RequestContext}
use agentid_mcp_gateway.Errors.{ok, raise, >>=-eq-ok, raise_if-eq-ok, ErrorKind, raise_if, error}
use agentid_mcp_gateway.Jwt.{Jwt}
use agentid_mcp_gateway.Models.{Db, Persona, Delegation}
use agentid_mcp_gateway.Identity.Delegation.{get_delegation, require_active_delegation}
use agentid_mcp_gateway.Identity.Tokens.{TokenClaims, is_delegated, downstream, verify}
use agentid_mcp_gateway.Gateway.Auth.{
  caller_of, delegated_context, subject_context, from_claims, check_session, check_delegation,
  from_api_key, authenticate, extract_credential, from_token,
}
use agentid_mcp_gateway.Gateway.Auth.Keys.{from_api_key-non_user}
use agentid_mcp_gateway.Gateway.Auth.Backing.{Backed, delegated_context-ok, subject_context-Backed}

module _ (now : ℕ) (db : Db) (claims : TokenClaims) (rid : String) (client : Option String)
    {ctx : RequestContext} where
  -- A token that is accepted is not one made for a downstream server, its session, if it has one, is
  -- active, and what its context claims is backed by the database: the user persona by an active user
  -- and, where an agent acts, by an active agent that is not autonomous and a delegation still active.
  pub from_claims-Backed :
      from_claims now db claims rid client ≡ ok ctx
      → ((claims.token_type == downstream) ≡ false)
        × (check_session now db claims ≡ ok tt)
        × Backed now db claims ctx
  unfolding from_claims
  from_claims-Backed h =
      let (c, kind, h1) =
        >>=-eq-ok
          (raise_if (claims.token_type == downstream) ErrorKind.authentication_error
            "wrong_token_type")
          _ h in
      let (d, session, h2) = >>=-eq-ok (check_session now db claims) _ h1 in
      (raise_if-eq-ok _ _ _ kind, session, subject_context-Backed now db claims rid client h2)

-- A token of a revoked delegation is refused, however long the token itself is still valid.
pub from_claims_revoked_delegation :
    (now : ℕ) (db : Db) (claims : TokenClaims) (rid : String) (client : Option String) (i : String)
    (d : Delegation)
    → is_delegated claims ≡ true
    → claims.delegation_id ≡ some i
    → (i == "") ≡ false
    → get_delegation db i ≡ some d
    → d.revoked ≡ true
    → (ctx : RequestContext) → from_claims now db claims rid client ≢ ok ctx
unfolding from_claims subject_context check_delegation require_active_delegation
from_claims_revoked_delegation now db claims rid client i d acts has given found revoked ctx h =
    let (c, kind, h1) =
      >>=-eq-ok
        (raise_if (claims.token_type == downstream) ErrorKind.authentication_error
          "wrong_token_type")
        _ h in
    let (x, session, h2) = >>=-eq-ok (check_session now db claims) _ h1 in
    let acted : delegated_context now db claims rid client ≡ ok ctx = ground (arith, h2) in
    let (u, a, user, agent, kind', checked, persona, for_user, by_agent) =
      delegated_context-ok now db claims rid client acted in
    ground (arith, checked, found)

-- Whoever is authenticated with the user persona presented a token that verifies, not an API key, and
-- that token's claims are backed by the database.
pub authenticate_user_persona :
    (jwt : Jwt) (check_secret : String → String → Bool) (now : ℕ) (db : Db)
    (authorization api_key_header : Option String) (rid : String) (client : Option String)
    (s : Settings) {ctx : RequestContext} {db' : Db}
    → authenticate jwt check_secret now db authorization api_key_header rid client s ≡ ok (ctx, db')
    → ctx.persona ≡ Persona.user
    → (raw : String) × (claims : TokenClaims) × (extract_credential authorization api_key_header s
        ≡ ok (some raw))
      × (has_prefix s.api_key_prefix raw ≡ false)
      × (verify jwt s now raw none ≡ ok claims)
      × Backed now db claims ctx
unfolding authenticate caller_of
authenticate_user_persona jwt check_secret now db authorization api_key_header rid client s {ctx}
      {db'} h user =
    let (credential, e, h1) = >>=-eq-ok (extract_credential authorization api_key_header s) _ h in
    presented credential e h1
  where
    presented :
        (o : Option String)
        → extract_credential authorization api_key_header s ≡ ok o
        → (elim o [
          | none ↦ raise (error ErrorKind.authentication_error "missing_credential")
          | some raw ↦
              if has_prefix s.api_key_prefix raw
              then from_api_key check_secret now db raw rid client s
              else from_token jwt now db raw rid client s
        ])
          ≡ ok (ctx, db')
        → (raw : String) × (claims : TokenClaims) × (extract_credential authorization api_key_header
              s
            ≡ ok (some raw))
          × (has_prefix s.api_key_prefix raw ≡ false)
          × (verify jwt s now raw none ≡ ok claims)
          × Backed now db claims ctx
    presented none e k = absurd (ground arith)
    presented (some raw) e k = elim (Bool-cases (has_prefix s.api_key_prefix raw)) [
      | inl p ↦ absurd (
          ground (
            arith,
            from_api_key-non_user check_secret now db raw rid client s {ctx = ctx} {db' = db'}
                (ground arith),
          ))
      | inr p ↦
          let chosen : from_token jwt now db raw rid client s ≡ ok (ctx, db') = ground arith in
          let (claims, v, k1) = >>=-eq-ok (verify jwt s now raw none) _ chosen in
          let (c, f, k2) = >>=-eq-ok (from_claims now db claims rid client) _ k1 in
          let same : from_claims now db claims rid client ≡ ok ctx = ground arith in
          let (kind, session, backed) = from_claims-Backed now db claims rid client same in
          (raw, claims, e, p, v, backed)
    ]
