-- ===== src/Tests/Engine.antt =====
-- agentid/authorization/engine.py at a small database.
use agentid_mcp_gateway.Identity.ServiceAccounts.{
  get_service_account, get_service_account_by_name, may_use_service_account,
  resolve_service_account,
}
use agentid_mcp_gateway.Authorization.Engine.Execution.{
  borrow_account, grantee_for, own_account, own_account_checked, resolve_execution_identity,
  use_account,
}
use agentid_mcp_gateway.Authorization.Rbac.{
  from_roles, permissions_for_agent, permissions_for_user, roles_of,
  permissions_for_service_account,
}
use agentid_mcp_gateway.Authorization.Permissions.{
  allowed_by, any_matches, denied_by, matches, permits, sorted, is_nonempty,
}
use agentid_mcp_gateway.Identity.Users.{get_user}
use agentid_mcp_gateway.Identity.Agents.{get_agent}
use agentid_mcp_gateway.Prelude.{true, none, some, [], ◌∷◌, ◌≡◌, inl, inr, refl, split, join}
use agentid_mcp_gateway.Json.{end}
use agentid_mcp_gateway.Models.{permission}
use agentid_mcp_gateway.Authorization.Decisions.{is_allowed, allow_as}
use agentid_mcp_gateway.Authorization.Engine.{authorize_tool, base_of, execute_step}
use agentid_mcp_gateway.Authorization.Engine.Steps.{
  required_tool_scope, is_user_persona, check_identity, check_scope, check_availability,
  resolve_principals, check_persona, check_denies, check_agent_holds, check_user_holds,
}
use agentid_mcp_gateway.Authorization.Engine.Soundness.{
  Passed, allowed-permitted, allowed-account, allowed-persona,
}
use agentid_mcp_gateway.Authorization.Engine.Holders.{UserHolds, AgentHolds}
use agentid_mcp_gateway.Authorization.Engine.Completeness.{passed-allowed}
use agentid_mcp_gateway.Authorization.Engine.Gaps.{no_scope_suffices}
use agentid_mcp_gateway.Tests.Data.{db, alice, helper, github, create_issue, helper_ctx}

helper_allowed : is_allowed (authorize_tool db helper_ctx create_issue github none) ≡ true
unfolding authorize_tool check_identity check_scope check_availability resolve_principals get_user
    get_agent check_persona check_denies is_nonempty permissions_for_user from_roles roles_of
    denied_by any_matches sorted permissions_for_agent borrow_account grantee_for own_account
    own_account_checked resolve_execution_identity use_account check_agent_holds check_user_holds
    base_of execute_step allowed_by matches permits permissions_for_service_account
    get_service_account get_service_account_by_name may_use_service_account resolve_service_account
    permission join split
helper_allowed = refl

-- alice asks for the call to run as the deployer
deploy_allowed :
    is_allowed (authorize_tool db helper_ctx create_issue github (some "deployer")) ≡ true
unfolding authorize_tool check_identity check_scope check_availability resolve_principals get_user
    get_agent check_persona check_denies is_nonempty permissions_for_user from_roles roles_of
    denied_by any_matches sorted permissions_for_agent borrow_account grantee_for own_account
    own_account_checked resolve_execution_identity use_account check_agent_holds check_user_holds
    base_of execute_step allowed_by matches permits permissions_for_service_account
    get_service_account get_service_account_by_name may_use_service_account resolve_service_account
    permission join split
deploy_allowed = refl

runs_as_deployer :
    (authorize_tool db helper_ctx create_issue github (some "deployer")).service_account_id
    ≡ some "svc_deploy"
unfolding authorize_tool check_identity check_scope check_availability resolve_principals get_user
    get_agent check_persona check_denies is_nonempty permissions_for_user from_roles roles_of
    denied_by any_matches sorted permissions_for_agent borrow_account grantee_for own_account
    own_account_checked resolve_execution_identity use_account check_agent_holds check_user_holds
    base_of execute_step allowed_by matches permits permissions_for_service_account
    get_service_account get_service_account_by_name may_use_service_account resolve_service_account
    permission join split
runs_as_deployer = refl

allowed-permitted_example :
    (create_issue.enabled ≡ true)
    × (github.enabled ≡ true)
    × UserHolds db helper_ctx.user_id (permission create_issue)
    × AgentHolds db helper_ctx.agent_id (permission create_issue)
allowed-permitted_example = allowed-permitted db helper_ctx create_issue github none helper_allowed

allowed-account_example :
    (allowed-account db helper_ctx create_issue github
      (some "deployer")
      "svc_deploy"
      deploy_allowed
      runs_as_deployer).0.is_active
    ≡ true
allowed-account_example =
    (allowed-account db helper_ctx create_issue github (some "deployer") "svc_deploy" deploy_allowed
      runs_as_deployer).2

allowed-persona_example : is_user_persona helper_ctx.persona ≡ true
allowed-persona_example = allowed-persona db helper_ctx create_issue github none helper_allowed

helper_passes : Passed db helper_ctx create_issue github (some alice) none (some helper)
unfolding get_user get_agent permits denied_by any_matches sorted permissions_for_user from_roles
    roles_of allowed_by matches permission split permissions_for_agent
helper_passes = record {
  found_user = inr (alice, refl, refl, refl, refl);
  found_account = inl (refl, refl);
  found_agent = inr (helper, refl, refl, refl, refl);
  tool_enabled = refl;
  server_enabled = refl;
  scoped = refl;
  persona = refl;
  no_impersonation = refl;
  user_holds = refl;
  agent_holds = refl;
}

passed-allowed_example :
    authorize_tool db helper_ctx create_issue github none
    ≡ allow_as (base_of create_issue github) (some "dev") "usr_alice" none end
unfolding is_nonempty permissions_for_user from_roles roles_of join
passed-allowed_example =
    passed-allowed db helper_ctx create_issue github (some alice) none (some helper) helper_passes
      refl refl

no_scope_suffices_example :
    authorize_tool db (record helper_ctx { scopes = [] }) create_issue github none
    ≡ authorize_tool db
        (record helper_ctx { scopes = required_tool_scope ∷ [] })
        create_issue
        github
        none
no_scope_suffices_example = no_scope_suffices db helper_ctx create_issue github none
