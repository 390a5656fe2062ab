-- ===== src/Authorization/Engine/Holders.antt =====
-- agentid/authorization/engine.py: who holds the permission of an allowed request, and which service account it
-- may run as.
use agentid_mcp_gateway.Prelude.{
  String, true, false, not, ◌&&◌, ◌||◌, Option, none, some, ◌≡◌, ◌⊎◌, inl, inr, arith, is_some,
  is_none, truthy, ◌or_else◌, Bool-cases, Option-cases,
}
use agentid_mcp_gateway.Context.{RequestContext, text_of}
use agentid_mcp_gateway.Models.{Db, User, Agent, ServiceAccount, Tool, permission}
use agentid_mcp_gateway.Identity.Users.{get_user}
use agentid_mcp_gateway.Identity.Agents.{get_agent}
use agentid_mcp_gateway.Identity.ServiceAccounts.{resolve_service_account, may_use_service_account}
use agentid_mcp_gateway.Authorization.Permissions.{permits}
use agentid_mcp_gateway.Authorization.Rbac.{
  permissions_for_user, permissions_for_agent, permissions_for_service_account,
}
use agentid_mcp_gateway.Authorization.Decisions.{Decision, Base}
use agentid_mcp_gateway.Authorization.Engine.Steps.{Principals, principals_of, permissions_or_none}
use agentid_mcp_gateway.Authorization.Engine.Execution.{
  grantee_for, own_account, borrow_account, use_account, resolve_execution_identity,
}
use agentid_mcp_gateway.Authorization.Engine.Peeling.{
  Grants, FoundUser, FoundAgent, FoundAccount, is_alone,
}
use agentid_mcp_gateway.Authorization.Engine.{execute_step}

-- the user of the request, if it has one, is active and holds the permission
abbrev pub UserHolds : Db → Option String → String → Type 0
UserHolds db id q =
    (truthy id ≡ false)
    ⊎ ((u : User) × (get_user db (text_of id) ≡ some u)
        × (u.is_active ≡ true)
        × (permits (permissions_for_user db u) q ≡ true))

-- the same of the agent
abbrev pub AgentHolds : Db → Option String → String → Type 0
AgentHolds db id q =
    (truthy id ≡ false)
    ⊎ ((a : Agent) × (get_agent db (text_of id) ≡ some a)
        × (a.is_active ≡ true)
        × (permits (permissions_for_agent db a) q ≡ true))

-- the request is a service account's own, with no user and no agent
abbrev pub OwnCall : Db → RequestContext → ServiceAccount → Type 0
OwnCall db ctx sa =
    (is_alone ctx ≡ true) × (resolve_service_account db (text_of ctx.service_account_id) ≡ some sa)

-- the user of the request, or else its agent, has a grant of the account that is not revoked
abbrev pub Granted : Db → RequestContext → ServiceAccount → Type 0
Granted db ctx sa =
    (g : String) × ((grantee_for ctx).1 ≡ some g)
    × (may_use_service_account db (grantee_for ctx).0 g sa.id ≡ true)

module _ (db : Db) (ctx : RequestContext) (tool : Tool) where
  pub UserHolds-of :
      (user : Option User)
      → FoundUser db ctx.user_id user
      → (is_some user
          && not (permits (permissions_or_none (permissions_for_user db) user) (permission tool)))
        ≡ false
      → UserHolds db ctx.user_id (permission tool)
  UserHolds-of user (inl (absent, e)) h = inl absent
  UserHolds-of none (inr (u, given, found, active, e)) h = absurd (ground arith)
  UserHolds-of (some v) (inr (u, given, found, active, e)) h =
      inr (v, ground arith, ground arith, ground arith)

  pub AgentHolds-of :
      (agent : Option Agent)
      → FoundAgent db ctx.agent_id agent
      → (is_some agent
          && not (permits (permissions_or_none (permissions_for_agent db) agent) (permission tool)))
        ≡ false
      → AgentHolds db ctx.agent_id (permission tool)
  AgentHolds-of agent (inl (absent, e)) h = inl absent
  AgentHolds-of none (inr (a, given, found, active, e)) h = absurd (ground arith)
  AgentHolds-of (some v) (inr (a, given, found, active, e)) h =
      inr (v, ground arith, ground arith, ground arith)

  -- an active account that holds the permission, of its own call or granted to the caller
  abbrev MayRunAs : String → Type 0
  MayRunAs i =
      (s : ServiceAccount) × (s.id ≡ i)
      × (s.is_active ≡ true)
      × (permits (permissions_for_service_account db s) (permission tool) ≡ true)
      × (OwnCall db ctx s ⊎ Granted db ctx s)

  module _ (d : Decision) (base : Base) (i : String) (e : d.service_account_id ≡ some i) where
    own_account-Grants :
        (user : Option User) (sa : Option ServiceAccount) (agent : Option Agent)
        → FoundAccount db ctx sa
        → Grants d (own_account (permission tool) base (principals_of db user sa agent))
        → MayRunAs i
    unfolding own_account
    own_account-Grants user none agent found g = absurd (ground arith)
    own_account-Grants user (some s) agent (inl (alone, absent)) g = absurd (ground arith)
    own_account-Grants user (some s) agent (inr (t, alone, found, active, same)) g =
        (s, ground arith, ground arith, ground arith, inl (alone, ground arith))

    use_account-Grants :
        (p : Principals) (s : ServiceAccount)
        → s.is_active ≡ true
        → Grants d (use_account db ctx tool base p s)
        → MayRunAs i
    unfolding use_account
    use_account-Grants p s active g = elim (Option-cases (grantee_for ctx).1) [
      | inl absent ↦ absurd (ground arith)
      | inr (who, grantee) ↦
          (s, ground arith, active, ground arith, inr (who, grantee, ground arith))
    ]

    borrow_account-Grants :
        (p : Principals) (identifier : Option String)
        → Grants d (borrow_account db ctx tool base p identifier)
        → MayRunAs i
    unfolding borrow_account
    borrow_account-Grants p identifier g = elim (Bool-cases (truthy identifier)) [
      | inr absent ↦ absurd (ground arith)
      | inl given ↦ elim (Option-cases (resolve_service_account db (text_of identifier))) [
        | inl unknown ↦ absurd (ground arith)
        | inr (s, found) ↦ elim (Bool-cases s.is_active) [
          | inr off ↦ absurd (ground arith)
          | inl active ↦ use_account-Grants p s active (ground arith)
        ]
      ]
    ]

    pub execute_step-Grants :
        (requested : Option String) (user : Option User) (sa : Option ServiceAccount)
        (agent : Option Agent)
        → FoundAccount db ctx sa
        → Grants d (execute_step db ctx tool base requested (principals_of db user sa agent))
        → MayRunAs i
    unfolding execute_step resolve_execution_identity
    execute_step-Grants requested user sa agent found g =
        let p = principals_of db user sa agent in
        elim (Bool-cases (is_none user && is_none agent)) [
          | inl alone ↦ own_account-Grants user sa agent found (rw alone at g)
          | inr caller ↦ elim (Bool-cases (tool.requires_service_account || is_some requested)) [
            | inl needs ↦
                borrow_account-Grants p (requested or_else tool.default_service_account_id)
                  (ground arith)
            | inr plain ↦ absurd (ground arith)
          ]
        ]
