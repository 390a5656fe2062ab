-- ===== src/Authorization/Engine/Soundness.antt =====
-- What `authorize_tool` of engine.py grants: the permissions that an allowed request has, and the
-- identity that it runs as.
use agentid_mcp_gateway.Prelude.{
  String, true, false, not, ◌&&◌, ◌||◌, Option, none, some, ◌≡◌, refl, ◌⊎◌, inl, inr, arith,
  contains, is_empty, is_some, truthy,
}
use agentid_mcp_gateway.Context.{RequestContext, text_of}
use agentid_mcp_gateway.Models.{Db, User, Agent, ServiceAccount, Tool, McpServer, permission}
use agentid_mcp_gateway.Identity.Agents.{get_agent}
use agentid_mcp_gateway.Authorization.Permissions.{permits}
use agentid_mcp_gateway.Authorization.Rbac.{
  permissions_for_user, permissions_for_agent, permissions_for_service_account,
}
use agentid_mcp_gateway.Authorization.Decisions.{Decision, is_allowed}
use agentid_mcp_gateway.Authorization.Engine.Steps.{
  principals_of, required_tool_scope, permissions_or_none, is_user_persona, is_autonomous,
  has_autonomous,
}
use agentid_mcp_gateway.Authorization.Engine.Peeling.{
  Grants, FoundUser, FoundAgent, FoundAccount, peel_identity, peel_scope, peel_availability,
  peel_principals, peel_persona, peel_denies, peel_user_holds, peel_agent_holds,
}
use agentid_mcp_gateway.Authorization.Engine.{base_of, execute_step, authorize_tool}
use agentid_mcp_gateway.Authorization.Engine.Holders.{
  UserHolds, AgentHolds, OwnCall, Granted, UserHolds-of, AgentHolds-of, execute_step-Grants,
}

-- what the checks before the execution identity have found
pub record Passed (db : Db) (ctx : RequestContext) (tool : Tool) (server : McpServer)
    (user : Option User) (sa : Option ServiceAccount) (agent : Option Agent) : Type 0 where
  pub found_user : FoundUser db ctx.user_id user
  pub found_account : FoundAccount db ctx sa
  pub found_agent : FoundAgent db ctx.agent_id agent
  pub tool_enabled : tool.enabled ≡ true
  pub server_enabled : server.enabled ≡ true
  pub scoped : (is_empty ctx.scopes || contains required_tool_scope ctx.scopes) ≡ true
  pub persona : is_user_persona ctx.persona ≡ is_some ctx.user_id
  pub no_impersonation : (has_autonomous agent && is_some ctx.user_id) ≡ false
  pub user_holds :
      (is_some user
        && not (permits (permissions_or_none (permissions_for_user db) user) (permission tool)))
      ≡ false
  pub agent_holds :
      (is_some agent
        && not (permits (permissions_or_none (permissions_for_agent db) agent) (permission tool)))
      ≡ false

module _ (db : Db) (ctx : RequestContext) (tool : Tool) (server : McpServer)
    (requested : Option String) where
  abbrev pub decision : Decision
  decision = authorize_tool db ctx tool server requested

  pub passed :
      is_allowed decision ≡ true
      → (user : Option User) × (sa : Option ServiceAccount) × (agent : Option Agent) × Passed db ctx
          tool server user sa agent
        × Grants decision (
            execute_step db ctx tool
              (base_of tool server)
              requested
              (principals_of db user sa agent))
  unfolding authorize_tool
  passed h =
      let base = base_of tool server in
      let q = permission tool in
      let g₁ = peel_identity decision ctx base _ (h, refl) in
      let (scoped, g₂) = peel_scope decision ctx base _ g₁ in
      let (tool_on, server_on, g₃) = peel_availability decision ctx base _ tool server g₂ in
      let (user, sa, agent, fu, fs, fa, g₄) = peel_principals decision db ctx base _ g₃ in
      let p = principals_of db user sa agent in
      let (persona, autonomous, g₅) = peel_persona decision ctx base _ p g₄ in
      let g₆ = peel_denies decision ctx base _ q p g₅ in
      let (user_holds, g₇) = peel_user_holds decision ctx base _ q p g₆ in
      let (agent_holds, g₈) = peel_agent_holds decision ctx base _ q p g₇ in
      (
        user,
        sa,
        agent,
        record {
          found_user = fu;
          found_account = fs;
          found_agent = fa;
          tool_enabled = tool_on;
          server_enabled = server_on;
          scoped = scoped;
          persona = persona;
          no_impersonation = autonomous;
          user_holds = user_holds;
          agent_holds = agent_holds;
        },
        g₈,
      )

module _ (db : Db) (ctx : RequestContext) (tool : Tool) (server : McpServer)
    (requested : Option String) where
  -- A request that is allowed is for an enabled tool of an enabled server. If it names a user, the
  -- user exists, is active and holds the permission of the tool; if it names an agent, so does the
  -- agent: the effective permissions are those of user ∩ agent.
  pub allowed-permitted :
      is_allowed (authorize_tool db ctx tool server requested) ≡ true
      → (tool.enabled ≡ true)
        × (server.enabled ≡ true)
        × UserHolds db ctx.user_id (permission tool)
        × AgentHolds db ctx.agent_id (permission tool)
  allowed-permitted h =
      let (user, sa, agent, p, g) = passed db ctx tool server requested h in
      (
        p.tool_enabled,
        p.server_enabled,
        UserHolds-of db ctx tool user p.found_user p.user_holds,
        AgentHolds-of db ctx tool agent p.found_agent p.agent_holds,
      )

  -- A request that is allowed to run as a service account runs as an active account that itself
  -- holds the permission of the tool, and that either made the request with no user and no agent, or
  -- is granted, unrevoked, to the user of the request, or to its agent if it has no user.
  pub allowed-account :
      (i : String)
      → is_allowed (authorize_tool db ctx tool server requested) ≡ true
      → (authorize_tool db ctx tool server requested).service_account_id ≡ some i
      → (s : ServiceAccount) × (s.id ≡ i)
        × (s.is_active ≡ true)
        × (permits (permissions_for_service_account db s) (permission tool) ≡ true)
        × (OwnCall db ctx s ⊎ Granted db ctx s)
  allowed-account i h e =
      let (user, sa, agent, p, g) = passed db ctx tool server requested h in
      execute_step-Grants db ctx tool (authorize_tool db ctx tool server requested)
        (base_of tool server) i e requested user sa agent p.found_account g

  -- The persona of an allowed request is that of a human exactly if it names a user.
  pub allowed-persona :
      is_allowed (authorize_tool db ctx tool server requested) ≡ true
      → is_user_persona ctx.persona ≡ is_some ctx.user_id
  allowed-persona h =
      let (user, sa, agent, p, g) = passed db ctx tool server requested h in p.persona

  -- The agent of an allowed request that names a user is not autonomous.
  pub allowed-not_autonomous :
      (a : Agent)
      → is_allowed (authorize_tool db ctx tool server requested) ≡ true
      → truthy ctx.agent_id ≡ true
      → get_agent db (text_of ctx.agent_id) ≡ some a
      → is_some ctx.user_id ≡ true
      → is_autonomous a ≡ false
  allowed-not_autonomous a h given found human =
      let (user, sa, agent, p, g) = passed db ctx tool server requested h in
      of_principals agent p.found_agent p.no_impersonation
    where
      of_principals :
          (agent : Option Agent)
          → FoundAgent db ctx.agent_id agent
          → (has_autonomous agent && is_some ctx.user_id) ≡ false
          → is_autonomous a ≡ false
      of_principals agent (inl (absent, e)) h = absurd (ground arith)
      of_principals none (inr (b, q, f, act, e)) h = absurd (ground arith)
      of_principals (some c) (inr (b, q, f, act, e)) h = ground arith
