-- ===== src/Authorization/Engine.antt =====
-- agentid/authorization/engine.py: `authorize_tool`, one definition for each of its steps. A step
-- stops with a decision, as an early return does, or goes on. The server of a tool is passed
-- beside it.
pub mod Steps
pub mod Execution
pub mod Peeling
pub mod Holders
pub mod Soundness
pub mod Completeness
pub mod Gaps
use agentid_mcp_gateway.Prelude.{
  String, Bool, true, false, ◌&&◌, Option, none, some, is_none, if◌then◌else◌,
}
use agentid_mcp_gateway.Context.{RequestContext}
use agentid_mcp_gateway.Models.{Db, ServiceAccount, Tool, McpServer, permission}
use agentid_mcp_gateway.Identity.ServiceAccounts.{resolve_service_account, may_use_service_account}
use agentid_mcp_gateway.Authorization.Decisions.{
  Decision, Reason, Base, no_base, deny_bare, deny_with, allow_as,
}
use Steps.{
  Step, stop, go, decide, ◌>>=◌, ◌>>◌, Principals, check_identity, check_scope, check_availability,
  resolve_principals, check_persona, check_denies, check_user_holds, check_agent_holds, sa_details,
}
use Execution.{own_account, resolve_execution_identity, grantee_for}

unfoldable pub base_of : Tool → McpServer → Base
base_of tool server = record {
  tool = some tool.qualified_name;
  server = some server.name;
  permission = some (permission tool);
}

-- steps 8 of the order: the account's own call, or the identity that is borrowed
unfoldable pub execute_step :
    Db → RequestContext → Tool → Base → Option String → Principals → Step Decision
execute_step db ctx tool base requested p =
    if is_none p.user && is_none p.agent
    then own_account (permission tool) base p
    else resolve_execution_identity db ctx tool base requested p

unfoldable pub authorize_tool : Db → RequestContext → Tool → McpServer → Option String → Decision
unfolding execute_step
authorize_tool db ctx tool server requested =
    let base = base_of tool server in
    decide (do
      check_identity ctx
      check_scope ctx base
      check_availability tool server base
      p ← resolve_principals db ctx base
      check_persona ctx p base
      check_denies (permission tool) base p
      check_user_holds (permission tool) base p
      check_agent_holds (permission tool) base p
      execute_step db ctx tool base requested p)

account_use : Db → RequestContext → ServiceAccount → Decision
account_use db ctx sa =
    let (grantee_type, grantee_id) = grantee_for ctx in
    elim grantee_id [
      | none ↦ deny_bare no_base Reason.unauthenticated
      | some g ↦
          if may_use_service_account db grantee_type g sa.id
          then allow_as no_base none sa.id (some sa.id) (sa_details sa)
          else deny_with no_base Reason.service_account_not_authorized none (sa_details sa)
    ]

pub authorize_service_account_use : Db → RequestContext → String → Decision
unfolding account_use
authorize_service_account_use db ctx identifier = elim (resolve_service_account db identifier) [
  | none ↦ deny_bare no_base Reason.service_account_not_authorized
  | some sa ↦
      if sa.is_active
      then account_use db ctx sa
      else deny_bare no_base Reason.service_account_not_authorized
]
