-- ===== src/Gateway/Deps/Admin.antt =====
-- agentid/gateway/deps.py: whom the guard of the administrative routes lets through.
use agentid_mcp_gateway.Prelude.{
  String, true, false, some, [], ◌==◌, ◌≡◌, ◌⊎◌, inl, inr, refl, arith, Bool-cases, Option-cases,
}
use agentid_mcp_gateway.Context.{RequestContext}
use agentid_mcp_gateway.Errors.{ok}
use agentid_mcp_gateway.Models.{Db, User, Agent}
use agentid_mcp_gateway.Identity.Users.{get_user}
use agentid_mcp_gateway.Identity.Agents.{get_agent}
use agentid_mcp_gateway.Authorization.Permissions.{
  PermissionSet, is_nonempty, permits, effective_permits,
}
use agentid_mcp_gateway.Authorization.Permissions.Sets.{intersect_sound}
use agentid_mcp_gateway.Authorization.Rbac.{
  permissions_for_user, permissions_for_agent, from_roles, roles_of,
}
use agentid_mcp_gateway.Gateway.Deps.{
  admin_permission, bounded, delegate_permissions, permissions_for, permitted, require_admin,
}

-- A set that bounds another bounds it, unless it is empty.
pub permits-bounded :
    (base agent : PermissionSet) (p : String)
    → permits (bounded base agent) p ≡ true
    → (permits base p ≡ true) × ((permits agent p ≡ true) ⊎ (is_nonempty agent ≡ false))
unfolding effective_permits
permits-bounded base agent p h = elim (Bool-cases (is_nonempty agent)) [
  | inl e ↦
      let both = intersect_sound base agent p (ground arith) in
      (ground (arith, both), inl (ground (arith, both)))
  | inr e ↦ (ground arith, inr e)
]

-- no role, no entry
no_entries :
    (db : Db) (agent : Agent)
    → agent.roles ≡ []
    → is_nonempty (permissions_for_agent db agent) ≡ false
unfolding permissions_for_agent roles_of from_roles is_nonempty
no_entries db agent no_roles = rw no_roles refl

module _ (db : Db) (ctx : RequestContext) where
  permitted-require_admin :
      {c : RequestContext}
      → require_admin db ctx ≡ ok c
      → permitted (permissions_for db ctx) admin_permission ≡ true
  unfolding require_admin
  permitted-require_admin h = ground arith

  -- An agent that acts for a user reaches an administrative route only where the user is known and may
  -- administer, the agent is known, and the agent may administer too or has no permission entry at all.
  pub require_admin_delegated :
      (u a : String) {c : RequestContext}
      → ctx.user_id ≡ some u
      → (u == "") ≡ false
      → ctx.agent_id ≡ some a
      → (a == "") ≡ false
      → require_admin db ctx ≡ ok c
      → (user : User) × (agent : Agent) × (get_user db u ≡ some user)
        × (get_agent db a ≡ some agent)
        × (permits (permissions_for_user db user) admin_permission ≡ true)
        × ((permits (permissions_for_agent db agent) admin_permission ≡ true)
            ⊎ (is_nonempty (permissions_for_agent db agent) ≡ false))
  unfolding permissions_for delegate_permissions
  require_admin_delegated u a has_user user_given has_agent agent_given h =
      let may = permitted-require_admin h in
      elim (Option-cases (get_user db u)) [
        | inl e ↦ absurd (ground arith)
        | inr (user, e) ↦ elim (Option-cases (get_agent db a)) [
          | inl f ↦ absurd (ground arith)
          | inr (agent, f) ↦
              let both =
                permits-bounded (permissions_for_user db user) (permissions_for_agent db agent)
                  admin_permission (ground arith) in
              (user, agent, e, f, both.0, both.1)
        ]
      ]

  -- An agent without any role is not bounded by its own grants: for a user who may administer it passes.
  pub require_admin_agent_without_roles :
      (u a : String) (user : User) (agent : Agent)
      → ctx.user_id ≡ some u
      → (u == "") ≡ false
      → ctx.agent_id ≡ some a
      → get_user db u ≡ some user
      → get_agent db a ≡ some agent
      → agent.roles ≡ []
      → permits (permissions_for_user db user) admin_permission ≡ true
      → require_admin db ctx ≡ ok ctx
  unfolding require_admin permissions_for delegate_permissions
  require_admin_agent_without_roles u a user agent has_user given has_agent found_user found_agent
        no_roles may =
      ground (arith, has_user, has_agent, found_user, found_agent, no_entries db agent no_roles)
