-- ===== src/Gateway/Auth/Backing.antt =====
-- agentid/gateway/middleware/auth.py: what stands behind the context of a token.
use agentid_mcp_gateway.Prelude.{
  ℕ, String, true, false, Option, none, some, ◌==◌, ◌≡◌, arith, Option-cases, Bool-cases, inl, inr,
  not,
}
use agentid_mcp_gateway.Context.{RequestContext, text_of}
use agentid_mcp_gateway.Errors.{ok, >>=-eq-ok, raise_if-eq-ok, ErrorKind, raise_if}
use agentid_mcp_gateway.Models.{Db, User, Agent, Persona}
use agentid_mcp_gateway.Identity.Users.{get_user}
use agentid_mcp_gateway.Identity.Agents.{get_agent}
use agentid_mcp_gateway.Identity.Delegation.{is_autonomous}
use agentid_mcp_gateway.Identity.Tokens.{TokenClaims, is_delegated}
use agentid_mcp_gateway.Gateway.Auth.{
  active_agent, active_user, agent_context, account_context, user_context, delegated_context,
  subject_context, check_delegation, is_user_persona,
}

-- What stands behind a context, one constructor for each kind of caller.
pub data Backed (now : ℕ) (db : Db) (claims : TokenClaims) (ctx : RequestContext) : Type 0 where
  human :
      (u : User)
      → get_user db claims.sub ≡ some u
      → u.is_active ≡ true
      → ctx.persona ≡ Persona.user
      → ctx.user_id ≡ some u.id
      → ctx.agent_id ≡ none
      → Backed now db claims ctx
  for_human :
      (u : User) (a : Agent)
      → get_user db claims.sub ≡ some u
      → u.is_active ≡ true
      → get_agent db (text_of claims.act_sub) ≡ some a
      → a.is_active ≡ true
      → is_autonomous a.kind ≡ false
      → check_delegation now db claims ≡ ok tt
      → ctx.persona ≡ Persona.user
      → ctx.user_id ≡ some u.id
      → ctx.agent_id ≡ some a.id
      → Backed now db claims ctx
  machine :
      (a : Agent)
      → get_agent db claims.sub ≡ some a
      → a.is_active ≡ true
      → ctx.persona ≡ Persona.non_user
      → ctx.user_id ≡ none
      → ctx.agent_id ≡ some a.id
      → Backed now db claims ctx
  account :
      ctx.persona ≡ Persona.non_user
      → ctx.user_id ≡ none
      → ctx.agent_id ≡ none
      → ctx.service_account_id ≡ some claims.sub
      → Backed now db claims ctx

active_user-ok :
    (db : Db) (i : String) {u : User}
    → active_user db i ≡ ok u
    → (get_user db i ≡ some u) × (u.is_active ≡ true)
active_user-ok db i h = elim (Option-cases (get_user db i)) [
  | inl e ↦ absurd (ground arith)
  | inr (v, e) ↦ (ground arith, ground arith)
]

active_agent-ok :
    (db : Db) (i : String) {a : Agent}
    → active_agent db i ≡ ok a
    → (get_agent db i ≡ some a) × (a.is_active ≡ true)
active_agent-ok db i h = elim (Option-cases (get_agent db i)) [
  | inl e ↦ absurd (ground arith)
  | inr (v, e) ↦ (ground arith, ground arith)
]

module _ (now : ℕ) (db : Db) (claims : TokenClaims) (rid : String) (client : Option String)
    {ctx : RequestContext} where
  user_context-Backed : user_context db claims rid client ≡ ok ctx → Backed now db claims ctx
  unfolding user_context
  user_context-Backed h =
      let (c, p, h') =
        >>=-eq-ok
          (raise_if (not (is_user_persona claims.persona)) ErrorKind.persona_violation
            "persona_mismatch")
          _ h in
      let (u, e, h'') = >>=-eq-ok (active_user db claims.sub) _ h' in
      let (found, active) = active_user-ok db claims.sub e in
      human u found active (ground arith) (ground arith) (ground arith)

  agent_context-Backed : agent_context db claims rid client ≡ ok ctx → Backed now db claims ctx
  unfolding agent_context
  agent_context-Backed h =
      let (c, p, h') =
        >>=-eq-ok
          (raise_if (is_user_persona claims.persona) ErrorKind.persona_violation "persona_mismatch")
          _ h in
      let (a, e, h'') = >>=-eq-ok (active_agent db claims.sub) _ h' in
      let (found, active) = active_agent-ok db claims.sub e in
      machine a found active (ground arith) (ground arith) (ground arith)

  account_context-Backed : account_context claims rid client ≡ ok ctx → Backed now db claims ctx
  unfolding account_context
  account_context-Backed h =
      let (c, p, h') =
        >>=-eq-ok
          (raise_if (is_user_persona claims.persona) ErrorKind.persona_violation "persona_mismatch")
          _ h in
      account (ground arith) (ground arith) (ground arith) (ground arith)

  pub delegated_context-ok :
      delegated_context now db claims rid client ≡ ok ctx
      → (u : User) × (a : Agent) × (active_user db claims.sub ≡ ok u)
        × (active_agent db (text_of claims.act_sub) ≡ ok a)
        × (is_autonomous a.kind ≡ false)
        × (check_delegation now db claims ≡ ok tt)
        × (ctx.persona ≡ Persona.user)
        × (ctx.user_id ≡ some u.id)
        × (ctx.agent_id ≡ some a.id)
  unfolding delegated_context
  delegated_context-ok h =
      let (c, p, h1) =
        >>=-eq-ok
          (raise_if (not (is_user_persona claims.persona)) ErrorKind.persona_violation
            "persona_mismatch")
          _ h in
      let (u, user, h2) = >>=-eq-ok (active_user db claims.sub) _ h1 in
      let (a, agent, h3) = >>=-eq-ok (active_agent db (text_of claims.act_sub)) _ h2 in
      let (d, kind, h4) =
        >>=-eq-ok
          (raise_if (is_autonomous a.kind) ErrorKind.persona_violation
            "autonomous_agent_delegation")
          _ h3 in
      let (x, live, h5) = >>=-eq-ok (check_delegation now db claims) _ h4 in
      (
        u,
        a,
        user,
        agent,
        raise_if-eq-ok (is_autonomous a.kind) _ _ kind,
        live,
        ground arith,
        ground arith,
        ground arith,
      )

  delegated_context-Backed :
      delegated_context now db claims rid client ≡ ok ctx → Backed now db claims ctx
  delegated_context-Backed h =
      let (u, a, user, agent, kind, live, persona, for_user, by_agent) = delegated_context-ok h in
      let (found, active) = active_user-ok db claims.sub user in
      let (found', active') = active_agent-ok db (text_of claims.act_sub) agent in
      for_human u a found active found' active' kind live persona for_user by_agent

  pub subject_context-Backed :
      subject_context now db claims rid client ≡ ok ctx → Backed now db claims ctx
  unfolding subject_context
  subject_context-Backed h = elim (Bool-cases (is_delegated claims)) [
    | inl d ↦ delegated_context-Backed (ground arith)
    | inr d ↦ elim (Bool-cases (claims.subject_type == "user")) [
      | inl e ↦ user_context-Backed (ground arith)
      | inr e ↦ elim (Bool-cases (claims.subject_type == "agent")) [
        | inl f ↦ agent_context-Backed (ground arith)
        | inr f ↦ elim (Bool-cases (claims.subject_type == "service_account")) [
          | inl g ↦ account_context-Backed (ground arith)
          | inr g ↦ absurd (ground arith)
        ]
      ]
    ]
  ]
