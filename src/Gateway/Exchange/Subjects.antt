-- ===== src/Gateway/Exchange/Subjects.antt =====
-- agentid/gateway/api/auth.py: who may exchange a token, for what.
use agentid_mcp_gateway.Prelude.{
  String, true, false, Option, none, some, ◌==◌, ◌≡◌, refl, arith, eq_iff, not, Option-cases, inl,
  inr, find_first-passes, contains, List, [], ◌∷◌,
}
use agentid_mcp_gateway.Config.{Settings}
use agentid_mcp_gateway.Jwt.{Payload}
use agentid_mcp_gateway.Errors.{ok, ErrorKind, raise_if, >>=-eq-ok}
use agentid_mcp_gateway.Models.{Db, User, Agent}
use agentid_mcp_gateway.Identity.Agents.{require_agent, user_may_delegate_to}
use agentid_mcp_gateway.Identity.Delegation.{
  DelegationResult, delegate, delegate_sound, is_autonomous,
}
use agentid_mcp_gateway.Identity.Tokens.{TokenClaims, downstream}
use agentid_mcp_gateway.Identity.Users.{get_user, require_user}
use agentid_mcp_gateway.Gateway.Auth.{check_session, is_user_persona}
use agentid_mcp_gateway.Gateway.Exchange.{
  ExchangeRequest, ExchangeResult, Draw, check_subject, exchange_for_delegation, token_exchange,
  grant_type_token_exchange, token_type_access, token_type_jwt,
}

-- the user that is required is the one with the id
pub require_user-id : (db : Db) (i : String) {u : User} → require_user db i ≡ ok u → u.id ≡ i
unfolding require_user get_user
require_user-id db i {u} h = elim (Option-cases (get_user db i)) [
  | inl e ↦ absurd (ground arith)
  | inr (v, e) ↦
      ground (arith, find_first-passes (λ (x : User). x.id == i) db.users e, eq_iff v.id i)
]

check_subject-ok :
    (claims : TokenClaims) {x : Unit {0}}
    → check_subject claims ≡ ok x
    → ((claims.token_type == downstream) ≡ false)
      × ((claims.subject_type == "user") ≡ true)
      × (is_user_persona claims.persona ≡ true)
unfolding check_subject
check_subject-ok claims h = (ground arith, ground arith, ground arith)

-- the token of a delegation that was made
made_token :
    (s : Settings) (draw : Draw) (user : User) (actor : String) (session_id : Option String)
    (scopes : List String) (db : Db) {dr : DelegationResult} {db1 : Db} {sub : String}
    {token : Payload}
    → user.id ≡ sub
    → delegate s draw.now draw.later draw.fresh draw.jti user actor session_id scopes none db
      ≡ ok (dr, db1)
    → token ≡ dr.token
    → (token.sub ≡ sub)
      × (agent : Agent) × (require_agent db actor ≡ ok agent)
      × (agent.is_active ≡ true)
      × (is_autonomous agent.kind ≡ false)
      × (user_may_delegate_to db sub agent.id ≡ true)
      × (token.act_sub ≡ some agent.id)
made_token s draw user actor session_id scopes db {dr} same made e =
    let (found, active, kind, granted, sub, act) =
      delegate_sound s draw.now draw.later draw.fresh draw.jti user actor session_id scopes none db
        made in
    (ground arith, dr.agent, found, active, kind, rw⁻¹ same granted, ground arith)

-- Only a token with the user type and the user persona is exchanged, not one for a downstream server, and
-- only for an agent that is active, not autonomous and granted to that user. The new token's subject is
-- the subject of the old one, and its actor is the agent.
pub token_exchange_sound :
    (s : Settings) (draw : Draw) (claims : TokenClaims) (body : ExchangeRequest) (db : Db)
    {r : ExchangeResult} {db' : Db}
    → token_exchange s draw claims body db ≡ ok (r, db')
    → ((claims.token_type == downstream) ≡ false)
      × ((claims.subject_type == "user") ≡ true)
      × (is_user_persona claims.persona ≡ true)
      × (r.access_token.sub ≡ claims.sub)
      × (agent : Agent) × (require_agent db body.actor ≡ ok agent)
      × (agent.is_active ≡ true)
      × (is_autonomous agent.kind ≡ false)
      × (user_may_delegate_to db claims.sub agent.id ≡ true)
      × (r.access_token.act_sub ≡ some agent.id)
unfolding token_exchange exchange_for_delegation
token_exchange_sound s draw claims body db {r} {db'} h =
    let (x, subject, h1) = >>=-eq-ok (check_subject claims) _ h in
    let (y, session, h2) = >>=-eq-ok (check_session draw.now db claims) _ h1 in
    let (z, grant, h3) =
      >>=-eq-ok
        (raise_if (not (body.grant_type == grant_type_token_exchange)) ErrorKind.validation_error
          "unsupported_grant_type")
        _ h2 in
    let (t, kind, h4) =
      >>=-eq-ok
        (raise_if
          (not (contains body.requested_token_type (token_type_access ∷ token_type_jwt ∷ [])))
          ErrorKind.validation_error "unsupported_token_type")
        _ h3 in
    let (user, found, h5) = >>=-eq-ok (require_user db claims.sub) _ h4 in
    let (result, made, h6) =
      >>=-eq-ok
        (delegate s draw.now draw.later draw.fresh draw.jti user body.actor claims.session_id _ none
          db)
        _ h5 in
    let (not_downstream, is_user, persona) = check_subject-ok claims subject in
    let issued : r.access_token ≡ result.0.token = ground arith in
    let (sub, agent, known, active, kind', granted, act) =
      made_token s draw user body.actor claims.session_id _ db (require_user-id db claims.sub found)
        made issued in
    (not_downstream, is_user, persona, sub, agent, known, active, kind', granted, act)

-- What the exchange does with a token depends neither on an agent that acts in it already nor on the
-- delegation that it came from: a delegated token is exchanged as its user's own, whatever became of
-- its delegation.
pub token_exchange_ignores_actor :
    (s : Settings) (draw : Draw) (claims : TokenClaims) (act_sub delegation_id : Option String)
    (body : ExchangeRequest) (db : Db)
    → token_exchange s draw
        (record claims { act_sub = act_sub; delegation_id = delegation_id })
        body
        db
      ≡ token_exchange s draw claims body db
unfolding token_exchange check_subject check_session
token_exchange_ignores_actor s draw claims act_sub delegation_id body db = refl
