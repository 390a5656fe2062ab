-- ===== src/Authorization/Engine/Execution.antt =====
-- The last steps of engine.py: a service account that calls for itself, and the identity that the
-- call of a user or an agent runs as.
use agentid_mcp_gateway.Prelude.{
  String, not, ◌||◌, Option, none, some, is_some, truthy, ◌or_else◌, if◌then◌else◌,
}
use agentid_mcp_gateway.Json.{end}
use agentid_mcp_gateway.Context.{RequestContext, text_of}
use agentid_mcp_gateway.Models.{Db, User, Agent, ServiceAccount, Tool, IdentityType, permission}
use agentid_mcp_gateway.Identity.ServiceAccounts.{resolve_service_account, may_use_service_account}
use agentid_mcp_gateway.Authorization.Permissions.{PermissionSet, permits, denied_by, is_nonempty}
use agentid_mcp_gateway.Authorization.Rbac.{permissions_for_service_account}
use agentid_mcp_gateway.Authorization.Decisions.{
  Decision, Reason, Base, deny_bare, deny_with, allow_as,
}
use agentid_mcp_gateway.Authorization.Engine.Steps.{
  Step, stop, go, ◌>>◌, stop_if, Principals, policy_name, sa_details,
}

-- `_grantee_for`: the human of a user-driven call, or the agent itself
unfoldable pub grantee_for : RequestContext → IdentityType × Option String
grantee_for ctx =
    if truthy ctx.user_id
    then (IdentityType.user, ctx.user_id)
    else (IdentityType.agent, ctx.agent_id)

unfoldable pub own_account_checked : String → Base → PermissionSet → ServiceAccount → Step Decision
own_account_checked permission base s sa = do
  stop_if (truthy (denied_by s permission))
      (deny_with base Reason.explicit_deny (policy_name s) end)
  stop_if (not (permits s permission))
      (deny_with base Reason.service_account_not_permitted (policy_name s) end)
  go (allow_as base (policy_name s) sa.id (some sa.id) (sa_details sa))

unfoldable pub own_account : String → Base → Principals → Step Decision
unfolding own_account_checked
own_account permission base p = elim p.service_account [
  | none ↦ stop (deny_bare base Reason.unauthenticated)
  | some sa ↦ own_account_checked permission base p.service_account_permissions sa
]

-- `principals.user.id if principals.user else principals.agent.id`; the caller has one of them
abbrev pub caller_id : Option User → Option Agent → String
caller_id (some u) a = u.id
caller_id none (some a) = a.id
caller_id none none = ""

abbrev pub caller_policy : Principals → Option String
caller_policy p =
    policy_name (if is_nonempty p.user_permissions then p.user_permissions else p.agent_permissions)

abbrev pub with_account : ServiceAccount → Decision → Decision
with_account sa d = record d { service_account_id = some sa.id }

-- A grant lets a caller borrow the account, and the account needs the permission itself.
unfoldable pub use_account :
    Db → RequestContext → Tool → Base → Principals → ServiceAccount → Step Decision
use_account db ctx tool base p sa =
    let (grantee_type, grantee_id) = grantee_for ctx in
    let s = permissions_for_service_account db sa in
    elim grantee_id [
      | none ↦ stop (deny_bare base Reason.unauthenticated)
      | some g ↦ do
        stop_if (not (may_use_service_account db grantee_type g sa.id)) (
            with_account sa
              (deny_with base Reason.service_account_not_authorized none (sa_details sa)))
        stop_if (not (permits s (permission tool))) (
            with_account sa
              (deny_with base Reason.service_account_not_permitted (policy_name s) (sa_details sa)))
        go (allow_as base (caller_policy p) sa.id (some sa.id) (sa_details sa))
    ]

unfoldable pub borrow_account :
    Db → RequestContext → Tool → Base → Principals → Option String → Step Decision
borrow_account db ctx tool base p identifier =
    if truthy identifier
    then elim (resolve_service_account db (text_of identifier)) [
      | none ↦ stop (deny_bare base Reason.service_account_not_authorized)
      | some sa ↦
          if sa.is_active
          then use_account db ctx tool base p sa
          else stop (deny_bare base Reason.service_account_not_authorized)
    ]
    else stop (deny_bare base Reason.service_account_required)

unfoldable pub resolve_execution_identity :
    Db → RequestContext → Tool → Base → Option String → Principals → Step Decision
unfolding borrow_account
resolve_execution_identity db ctx tool base requested p =
    if tool.requires_service_account || is_some requested
    then borrow_account db ctx tool base p (requested or_else tool.default_service_account_id)
    else go (allow_as base (caller_policy p) (caller_id p.user p.agent) none end)
