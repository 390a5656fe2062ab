-- ===== src/Gateway/Login/Admitted.antt =====
-- agentid/gateway/api/auth.py: a login and the requests that follow it.
use agentid_mcp_gateway.Prelude.{
  ℕ, String, false, Option, none, some, ◌==◌, ◌≡◌, ◌≢◌, refl, sym, ◌∙◌, arith,
}
use agentid_mcp_gateway.Config.{Settings}
use agentid_mcp_gateway.Context.{RequestContext}
use agentid_mcp_gateway.Errors.{Result, ok, raise, ErrorKind, ◌>>◌, >>=-eq-ok, raise_if}
use agentid_mcp_gateway.Jwt.{Jwt, Payload}
use agentid_mcp_gateway.Models.{Db, User, Session, Persona, IdentityType}
use agentid_mcp_gateway.Audit.Events.{log, write_event}
use agentid_mcp_gateway.Gateway.Auth.{from_claims, check_session, subject_context}
use agentid_mcp_gateway.Gateway.Login.{LoginDraw, open_session, logout}
use agentid_mcp_gateway.Identity.Sessions.{
  create_session, get_session, require_active_session, revoke_session, revoke_session-inactive,
}
use agentid_mcp_gateway.Identity.Tokens.{TokenClaims, access_payload, downstream}

module _ (s : Settings) (draw : LoginDraw) (request_id : String) (client : Option String)
    (user : User) (db : Db) where
  abbrev login_session : Session
  unfolding create_session
  login_session =
      (create_session draw.now s.session_ttl_seconds draw.session_id IdentityType.user user.id
        Persona.user none client none db).0

  -- the token of the login
  abbrev pub token : Payload
  unfolding open_session access_payload
  token = (open_session s draw request_id client user db).0.access_token

-- no token passes whose session is never active
pub check_session-inactive :
    (at : ℕ) (db : Db) (claims : TokenClaims) (sid : String)
    → claims.session_id ≡ some sid
    → (sid == "") ≡ false
    → ((session : Session) → require_active_session at db sid ≢ ok session)
    → check_session at db claims ≢ ok tt
unfolding check_session
check_session-inactive at db claims sid named nonempty inactive h =
    split (require_active_session at db sid) refl
  where
    split : (r : Result Session) → require_active_session at db sid ≡ r → ⊥
    split (ok session) e = inactive session e
    split (raise x) e = ground arith

-- the logout revokes the session of its context
require_active_session-logout :
    (now later at : ℕ) (db : Db) (ctx : RequestContext) (sid : String)
    → ctx.session_id ≡ some sid
    → (sid == "") ≡ false
    → require_active_session at (logout now later ctx db) sid
      ≡ require_active_session at (revoke_session now sid db) sid
unfolding logout log write_event require_active_session get_session
require_active_session-logout now later at db ctx sid own nonempty = rw (own, nonempty) refl

-- A logout ends every token of its session: none of them is accepted afterwards, at any time.
pub from_claims-logout :
    (now later at : ℕ) (db : Db) (ctx : RequestContext) (claims : TokenClaims) (sid rid : String)
    (client : Option String) (c : RequestContext)
    → ctx.session_id ≡ some sid
    → claims.session_id ≡ some sid
    → (sid == "") ≡ false
    → from_claims at (logout now later ctx db) claims rid client ≢ ok c
unfolding from_claims
from_claims-logout now later at db ctx claims sid rid client c own named nonempty h =
    let db' = logout now later ctx db in
    let (_, _, rest) =
      >>=-eq-ok
        (raise_if (claims.token_type == downstream) ErrorKind.authentication_error
          "wrong_token_type")
        (λ _. check_session at db' claims >> subject_context at db' claims rid client) h in
    let (_, passed, _) =
      >>=-eq-ok (check_session at db' claims) (λ _. subject_context at db' claims rid client)
        rest in
    check_session-inactive at db' claims sid named nonempty
      (λ session e.
        revoke_session-inactive now at sid db session
          (sym (require_active_session-logout now later at db ctx sid own nonempty) ∙ e))
      passed
