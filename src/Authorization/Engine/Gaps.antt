-- ===== src/Authorization/Engine/Gaps.antt =====
-- Where engine.py decides otherwise than a comment beside the code describes.
use agentid_mcp_gateway.Prelude.{
  String, true, false, Option, none, some, [], ◌∷◌, ◌≡◌, refl, inl, inr, arith, truthy, contains,
}
use agentid_mcp_gateway.Context.{RequestContext}
use agentid_mcp_gateway.Models.{Db, Agent, Tool, McpServer, Persona, permission}
use agentid_mcp_gateway.Identity.Agents.{get_agent}
use agentid_mcp_gateway.Authorization.Permissions.{permits}
use agentid_mcp_gateway.Authorization.Rbac.{permissions_for_agent}
use agentid_mcp_gateway.Authorization.Decisions.{is_allowed}
use agentid_mcp_gateway.Authorization.Engine.Steps.{
  check_identity, check_scope, check_persona, resolve_principals, required_tool_scope,
}
use agentid_mcp_gateway.Authorization.Engine.Execution.{
  grantee_for, use_account, resolve_execution_identity, borrow_account,
}
use agentid_mcp_gateway.Authorization.Engine.Soundness.{Passed}
use agentid_mcp_gateway.Authorization.Engine.Completeness.{passed-allowed}
use agentid_mcp_gateway.Authorization.Engine.{execute_step, authorize_tool}

-- A request whose token has no scope at all is decided as one that has the required scope.
pub no_scope_suffices :
    (db : Db) (ctx : RequestContext) (tool : Tool) (server : McpServer) (requested : Option String)
    → authorize_tool db (record ctx { scopes = [] }) tool server requested
      ≡ authorize_tool db (record ctx { scopes = required_tool_scope ∷ [] }) tool server requested
unfolding authorize_tool check_identity check_scope check_persona resolve_principals execute_step
    resolve_execution_identity borrow_account use_account grantee_for
no_scope_suffices db ctx tool server requested = refl

module _ (db : Db) (ctx : RequestContext) (tool : Tool) (server : McpServer) (a : Agent)
    (machine : ctx.persona ≡ Persona.non_user) (no_user : ctx.user_id ≡ none)
    (agent_id : ctx.agent_id ≡ some a.id) (named : truthy (some a.id) ≡ true)
    (found : get_agent db a.id ≡ some a) (active : a.is_active ≡ true)
    (holds : permits (permissions_for_agent db a) (permission tool) ≡ true)
    (scoped : contains required_tool_scope ctx.scopes ≡ true) (tool_enabled : tool.enabled ≡ true)
    (server_enabled : server.enabled ≡ true) (plain : tool.requires_service_account ≡ false) where
  agent_passes : Passed db ctx tool server none none (some a)
  agent_passes = record {
    found_user = inl (ground arith, refl);
    found_account = inl (ground arith, refl);
    found_agent = inr (a, ground arith, ground arith, active, refl);
    tool_enabled = tool_enabled;
    server_enabled = server_enabled;
    scoped = ground arith;
    persona = ground arith;
    no_impersonation = ground arith;
    user_holds = refl;
    agent_holds = ground arith;
  }

  -- An active agent that holds the permission of a tool runs it alone, as itself and under no
  -- service account, of whichever kind the agent is: a delegated agent needs no delegating user,
  -- and an autonomous one needs no service account.
  pub agent_alone-allowed :
      let d = authorize_tool db ctx tool server none in
      (is_allowed d ≡ true) × (d.execution_identity ≡ some a.id) × (d.service_account_id ≡ none)
  agent_alone-allowed =
      let e = passed-allowed db ctx tool server none none (some a) agent_passes refl plain in
      (ground arith, ground arith, ground arith)
