-- ===== src/Gateway/Exchange/Route/Recorded.antt =====
-- agentid/gateway/api/auth.py: the event of a token exchange.
use agentid_mcp_gateway.Prelude.{
  ℕ, String, not, ◌==◌, Option, none, some, List, [], ◌∷◌, ◌++◌, ◌≡◌, refl, arith, contains,
}
use agentid_mcp_gateway.Config.{Settings}
use agentid_mcp_gateway.Errors.{Result, ok, raise, Exception, ErrorKind, >>=-eq-ok, raise_if}
use agentid_mcp_gateway.Jwt.{Jwt}
use agentid_mcp_gateway.Models.{Db, AuditEvent}
use agentid_mcp_gateway.Audit.Events.{log, write_event, from_context, to_model}
use agentid_mcp_gateway.Identity.Delegation.{delegate, delegation_target, issue_delegation}
use agentid_mcp_gateway.Identity.Tokens.{TokenClaims}
use agentid_mcp_gateway.Identity.Users.{require_user}
use agentid_mcp_gateway.Gateway.Exchange.{
  Draw, ExchangeRequest, ExchangeResult, exchange_for_delegation, requested_scopes,
  grant_type_token_exchange, token_type_access, token_type_jwt,
}
use agentid_mcp_gateway.Gateway.Exchange.Route.{audited, exchange_route, subject_claims, subject_of}

-- an exchange writes no event itself
exchange_for_delegation-events :
    (s : Settings) (draw : Draw) (user_id : String) (body : ExchangeRequest)
    (session_id : Option String) (scopes : List String) (db : Db) {r : ExchangeResult} {db' : Db}
    → exchange_for_delegation s draw user_id body session_id scopes db ≡ ok (r, db')
    → db'.audit_events ≡ db.audit_events
unfolding exchange_for_delegation delegate issue_delegation
exchange_for_delegation-events s draw user_id body session_id scopes db h =
    let (z, grant, h1) =
      >>=-eq-ok
        (raise_if (not (body.grant_type == grant_type_token_exchange)) ErrorKind.validation_error
          "unsupported_grant_type")
        _ h in
    let (t, kind, h2) =
      >>=-eq-ok
        (raise_if
          (not (contains body.requested_token_type (token_type_access ∷ token_type_jwt ∷ [])))
          ErrorKind.validation_error "unsupported_token_type")
        _ h1 in
    let (user, found, h3) = >>=-eq-ok (require_user db user_id) _ h2 in
    let (result, made, h4) =
      >>=-eq-ok
        (delegate s draw.now draw.later draw.fresh draw.jti user body.actor session_id scopes none
          db)
        _ h3 in
    let (agent, target, h5) = >>=-eq-ok (delegation_target db user body.actor) _ made in
    ground arith

-- what an event says of the exchange that it records
abbrev pub verdict : Result ExchangeResult → String
verdict (ok r) = "allow"
verdict (raise e) = "deny"

abbrev pub Recorded : Db → TokenClaims → Result ExchangeResult × Db → Type 0
Recorded db claims (result, db') =
    (event : AuditEvent) × (db'.audit_events ≡ db.audit_events ++ event ∷ [])
    × (event.action ≡ "auth.delegate")
    × (event.decision ≡ verdict result)
    × (event.user_id ≡ some claims.sub)

Recorded-audited :
    (message : Exception → String) (at : ℕ) (request_id : String) (claims : TokenClaims)
    (body : ExchangeRequest) (db : Db) (r : Result (ExchangeResult × Db))
    → ((result : ExchangeResult) (db' : Db)
        → r ≡ ok (result, db')
        → db'.audit_events ≡ db.audit_events)
    → Recorded db claims (audited message at (subject_of request_id claims) body db r)
unfolding log write_event to_model from_context
Recorded-audited message at request_id claims body db (raise e) same = (_, refl, refl, refl, refl)
Recorded-audited message at request_id claims body db (ok (result, db')) same =
    rw (same result db' refl) (_, refl, refl, refl, refl)

-- Each exchange that gets past the checks on the subject's token writes exactly one audit event, which
-- names the user of the token and says whether the exchange succeeded.
pub exchange_route-Recorded :
    (jwt : Jwt) (message : Exception → String) (s : Settings) (draw : Draw) (at : ℕ)
    (request_id token : String) (body : ExchangeRequest) (db : Db) {claims : TokenClaims}
    → subject_claims jwt s draw.now token db ≡ ok claims
    → Recorded db claims (exchange_route jwt message s draw at request_id token body db)
unfolding exchange_route
exchange_route-Recorded jwt message s draw at request_id token body db {claims} h =
    let scopes = requested_scopes body.scope in
    rw h (
      Recorded-audited message at request_id claims body db
        (exchange_for_delegation s draw claims.sub body claims.session_id scopes db)
        (λ result db' e.
          exchange_for_delegation-events s draw claims.sub body claims.session_id scopes db e))
