-- ===== src/Authorization/Engine/Completeness.antt =====
-- The other direction of engine.py: requests that meet the conditions of the checks are allowed.
use agentid_mcp_gateway.Prelude.{
  String, true, false, not, ◌&&◌, ◌||◌, Option, none, some, ◌≡◌, refl, inl, inr, arith, is_some,
  if◌then◌else◌,
}
use agentid_mcp_gateway.Json.{end}
use agentid_mcp_gateway.Context.{RequestContext}
use agentid_mcp_gateway.Models.{Db, User, Agent, ServiceAccount, Tool, McpServer, permission}
use agentid_mcp_gateway.Authorization.Permissions.{PermissionSet, permits, denied_by, is_nonempty}
use agentid_mcp_gateway.Authorization.Rbac.{permissions_for_user, permissions_for_agent}
use agentid_mcp_gateway.Authorization.Decisions.{Base, allow_as}
use agentid_mcp_gateway.Authorization.Engine.Steps.{
  go, decide, Principals, principals_of, permissions_or_none, resolve_user, resolve_own_account,
  resolve_acting_agent, check_identity, check_scope, check_availability, resolve_principals,
  check_persona, check_denies, check_user_holds, check_agent_holds,
}
use agentid_mcp_gateway.Authorization.Engine.Execution.{
  caller_id, caller_policy, resolve_execution_identity,
}
use agentid_mcp_gateway.Authorization.Engine.Peeling.{FoundUser, FoundAgent, FoundAccount}
use agentid_mcp_gateway.Authorization.Engine.Soundness.{Passed}
use agentid_mcp_gateway.Authorization.Engine.{base_of, execute_step, authorize_tool}

denied_by-none : (s : PermissionSet) (q : String) → permits s q ≡ true → denied_by s q ≡ none
unfolding permits
denied_by-none s q h = ground arith

module _ (db : Db) (ctx : RequestContext) (base : Base) where
  resolve_user-go :
      (id : Option String) (o : Option User) → FoundUser db id o → resolve_user db id base ≡ go o
  resolve_user-go id o (inl (absent, e)) = ground arith
  resolve_user-go id o (inr (u, given, found, active, e)) = ground arith

  resolve_own_account-go :
      (o : Option ServiceAccount) → FoundAccount db ctx o → resolve_own_account db ctx base ≡ go o
  resolve_own_account-go o (inl (absent, e)) = ground arith
  resolve_own_account-go o (inr (s, given, found, active, e)) = ground arith

  resolve_acting_agent-go :
      (id : Option String) (o : Option Agent)
      → FoundAgent db id o
      → resolve_acting_agent db id base ≡ go o
  resolve_acting_agent-go id o (inl (absent, e)) = ground arith
  resolve_acting_agent-go id o (inr (a, given, found, active, e)) = ground arith

-- an identity that is absent, or that holds the permission, is stopped by no deny pattern
no_deny :
    {A : Type 0} (f : A → PermissionSet) (o : Option A) (q : String)
    → (is_some o && not (permits (permissions_or_none f o) q)) ≡ false
    → (if is_nonempty (permissions_or_none f o)
        then denied_by (permissions_or_none f o) q
        else none)
      ≡ none
unfolding is_nonempty
no_deny f none q h = refl
no_deny f (some a) q h = ground (arith, denied_by-none (f a) q)

module _ (db : Db) (ctx : RequestContext) (tool : Tool) (server : McpServer) (user : Option User)
    (sa : Option ServiceAccount) (agent : Option Agent)
    (h : Passed db ctx tool server user sa agent) where
  abbrev p : Principals
  p = principals_of db user sa agent

  abbrev base : Base
  base = base_of tool server

  resolve_principals-go : resolve_principals db ctx base ≡ go p
  unfolding resolve_principals
  resolve_principals-go =
      rw
        (
          resolve_user-go db ctx base ctx.user_id user h.found_user,
          resolve_own_account-go db ctx base sa h.found_account,
          resolve_acting_agent-go db ctx base ctx.agent_id agent h.found_agent,
        )
        refl

  check_identity-go : (is_some user || is_some agent) ≡ true → check_identity ctx ≡ go tt
  unfolding check_identity
  check_identity-go caller = named h.found_user h.found_agent
    where
      named :
          FoundUser db ctx.user_id user
          → FoundAgent db ctx.agent_id agent
          → check_identity ctx ≡ go tt
      named (inr (u, given, f, act, e)) found = ground arith
      named (inl (absent, e)) (inr (a, given, f, act, e')) = ground arith
      named (inl (absent, e)) (inl (absent', e')) = absurd (ground arith)

  check_scope-go : check_scope ctx base ≡ go tt
  unfolding check_scope
  check_scope-go = ground (arith, h.scoped)

  check_availability-go : check_availability tool server base ≡ go tt
  unfolding check_availability
  check_availability-go = ground (arith, h.tool_enabled, h.server_enabled)

  check_persona-go : check_persona ctx p base ≡ go tt
  unfolding check_persona
  check_persona-go = ground (arith, h.persona, h.no_impersonation)

  check_user_holds-go : check_user_holds (permission tool) base p ≡ go tt
  unfolding check_user_holds
  check_user_holds-go = ground (arith, h.user_holds)

  check_agent_holds-go : check_agent_holds (permission tool) base p ≡ go tt
  unfolding check_agent_holds
  check_agent_holds-go = ground (arith, h.agent_holds)

  check_denies-go : check_denies (permission tool) base p ≡ go tt
  unfolding check_denies
  check_denies-go =
      rw
        (
          no_deny (permissions_for_user db) user (permission tool) h.user_holds,
          no_deny (permissions_for_agent db) agent (permission tool) h.agent_holds,
        )
        refl

  -- Every check passes, and what is left is the step that finds the execution identity.
  checks-go :
      (requested : Option String)
      → (is_some user || is_some agent) ≡ true
      → authorize_tool db ctx tool server requested
        ≡ decide (execute_step db ctx tool base requested p)
  unfolding authorize_tool
  checks-go requested caller =
      rw
        (
          check_identity-go caller,
          check_scope-go,
          check_availability-go,
          resolve_principals-go,
          check_persona-go,
          check_denies-go,
          check_user_holds-go,
          check_agent_holds-go,
        )
        refl

  -- A tool that needs no service account, called by a user or an agent for whom every check passes
  -- and who asks for no account, is allowed, and runs as the user, or else as the agent.
  pub passed-allowed :
      (is_some user || is_some agent) ≡ true
      → tool.requires_service_account ≡ false
      → authorize_tool db ctx tool server none
        ≡ allow_as base (caller_policy p) (caller_id user agent) none end
  unfolding execute_step resolve_execution_identity
  passed-allowed caller plain = rw (checks-go none caller) (ground arith)
