-- ===== src/History/Logins.antt =====
-- agentid/gateway/api/auth.py: what a login, the exchange of a token and a logout do to the ledger.
use agentid_mcp_gateway.Prelude.{
  ℕ, String, Bool, Option, none, List, [], ◌∷◌, ◌==◌, not, contains, truthy, Bool-cases, inl, inr,
}
use agentid_mcp_gateway.Config.{Settings}
use agentid_mcp_gateway.Context.{RequestContext, text_of}
use agentid_mcp_gateway.Errors.{
  Result, ok, raise, error, integrity_error, python_error, Exception, ErrorKind, raise_if,
}
use agentid_mcp_gateway.Errors.Holds.{Holds->>=, Holds->>=-Holds, Holds->>}
use agentid_mcp_gateway.Models.{Db, User}
use agentid_mcp_gateway.Identity.Delegation.{delegate}
use agentid_mcp_gateway.Identity.Tokens.{TokenClaims}
use agentid_mcp_gateway.Identity.Users.{authenticate_user, require_user}
use agentid_mcp_gateway.Gateway.App.{Gateway, settings_of, jwt_of}
use agentid_mcp_gateway.Gateway.Exchange.{
  grant_type_token_exchange, token_type_access, token_type_jwt, Draw, ExchangeRequest,
  ExchangeResult, exchange_for_delegation,
}
use agentid_mcp_gateway.Gateway.Exchange.Route.{
  audited, exchange_route, exchanged, subject_claims, subject_of,
}
use agentid_mcp_gateway.Gateway.Login.{
  LoginDraw, login, logged_in, login_failure, open_session, logout,
}
use agentid_mcp_gateway.History.Accounts.{Leaves}
use agentid_mcp_gateway.History.Ledger.{Lawful, Lawful-refl, Lawful-trans}
use agentid_mcp_gateway.History.Sessions.{
  Lawful-log, Lawful-write_event, Lawful-create_session, Lawful-revoke_session, Lawful-delegate,
}

-- login

Lawful-login_failure :
    (now : ℕ) (request_id email : String) (e : Exception) (db : Db)
    → Lawful db (login_failure now request_id email e db)
Lawful-login_failure now request_id email (error ErrorKind.authentication_error code) db =
    Lawful-write_event _ db
Lawful-login_failure now request_id email (error _ code) db = Lawful-refl db
Lawful-login_failure now request_id email integrity_error db = Lawful-refl db
Lawful-login_failure now request_id email (python_error name) db = Lawful-refl db

Lawful-open_session :
    (s : Settings) (draw : LoginDraw) (request_id : String) (client : Option String) (user : User)
    (db : Db)
    → Lawful db (open_session s draw request_id client user db).1
unfolding open_session
Lawful-open_session s draw request_id client user db =
    Lawful-trans
      (Lawful-create_session draw.now s.session_ttl_seconds draw.session_id user.id none client none
        db)
      (Lawful-log draw.later _ "auth.token" "allow" _ _)

pub Lawful-login :
    (s : Settings) (check_password : String → Option String → Bool) (draw : LoginDraw)
    (request_id : String) (client : Option String) (email password : String) (db : Db)
    → Lawful db (login s check_password draw request_id client email password db).1
unfolding login
Lawful-login s check_password draw request_id client email password db =
    by_user (authenticate_user check_password db email password)
  where
    by_user : (r : Result User) → Lawful db (logged_in s draw request_id client email db r).1
    by_user (raise e) = Lawful-login_failure draw.now request_id email e db
    by_user (ok user) = Lawful-open_session s draw request_id client user db

-- the exchange of a token

Leaves-exchange_for_delegation :
    (s : Settings) (draw : Draw) (user_id : String) (body : ExchangeRequest)
    (session_id : Option String) (scopes : List String) (db : Db)
    → Leaves db ExchangeResult (exchange_for_delegation s draw user_id body session_id scopes db)
unfolding exchange_for_delegation
Leaves-exchange_for_delegation s draw user_id body session_id scopes db =
    Holds->> _
      (raise_if (not (body.grant_type == grant_type_token_exchange)) ErrorKind.validation_error
        "unsupported_grant_type")
      _
      (Holds->> _
        (raise_if
          (not (contains body.requested_token_type (token_type_access ∷ token_type_jwt ∷ [])))
          ErrorKind.validation_error "unsupported_token_type")
        _
        (Holds->>= _ (require_user db user_id) _ (λ user.
          Holds->>=-Holds _ _
            (delegate s draw.now draw.later draw.fresh draw.jti user body.actor session_id scopes
              none db)
            _
            (Lawful-delegate s draw.now draw.later draw.fresh draw.jti user body.actor session_id
              scopes none db)
            (λ r lawful. lawful))))

pub Lawful-exchange_route :
    (g : Gateway) (draw : Draw) (at : ℕ) (request_id token : String) (body : ExchangeRequest)
    (db : Db)
    → Lawful db
        (exchange_route (jwt_of g) g.message (settings_of g) draw at request_id token body db).1
unfolding exchange_route
Lawful-exchange_route g draw at request_id token body db =
    by_claims (subject_claims (jwt_of g) (settings_of g) draw.now token db)
  where
    by_result :
        (ctx : RequestContext) (r : Result (ExchangeResult × Db))
        → Leaves db ExchangeResult r
        → Lawful db (audited g.message at ctx body db r).1
    by_result ctx (raise e) leaves = Lawful-log at ctx "auth.delegate" "deny" _ db
    by_result ctx (ok (result, db')) leaves =
        Lawful-trans leaves (Lawful-log at _ "auth.delegate" "allow" _ db')

    by_claims :
        (r : Result TokenClaims)
        → Lawful db (exchanged g.message (settings_of g) draw at request_id body db r).1
    by_claims (raise e) = Lawful-refl db
    by_claims (ok claims) =
        by_result (subject_of request_id claims) _ (
          Leaves-exchange_for_delegation (settings_of g) draw claims.sub body claims.session_id _
            db)

pub Lawful-logout :
    (now later : ℕ) (ctx : RequestContext) (db : Db) → Lawful db (logout now later ctx db)
unfolding logout
Lawful-logout now later ctx db = elim (Bool-cases (truthy ctx.session_id)) [
  | inl e ↦ rw e (
      Lawful-trans (Lawful-revoke_session now (text_of ctx.session_id) db)
        (Lawful-log later ctx "auth.session.revoke" "allow" _ _))
  | inr e ↦ rw e (Lawful-log later ctx "auth.session.revoke" "allow" _ db)
]
