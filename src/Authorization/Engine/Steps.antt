-- ===== src/Authorization/Engine/Steps.antt =====
-- The checks of engine.py that come before the execution identity is resolved.
use agentid_mcp_gateway.Prelude.{
  String, Bool, true, false, not, ◌&&◌, Option, none, some, contains, is_empty, is_some, is_none,
  truthy, join, if◌then◌else◌,
}
use agentid_mcp_gateway.Json.{Fields, end, field, str, arr, texts}
use agentid_mcp_gateway.Context.{RequestContext, text_of}
use agentid_mcp_gateway.Models.{
  Db, User, Agent, AgentKind, ServiceAccount, Tool, McpServer, Persona,
}
use agentid_mcp_gateway.Identity.Users.{get_user}
use agentid_mcp_gateway.Identity.Agents.{get_agent}
use agentid_mcp_gateway.Identity.ServiceAccounts.{resolve_service_account}
use agentid_mcp_gateway.Authorization.Permissions.{
  PermissionSet, no_permissions, permits, denied_by, is_nonempty,
}
use agentid_mcp_gateway.Authorization.Rbac.{
  permissions_for_user, permissions_for_agent, permissions_for_service_account,
}
use agentid_mcp_gateway.Authorization.Decisions.{
  Decision, Reason, Base, no_base, deny_bare, deny_with,
}

pub data Step (A : Type 0) : Type 0 where
  stop : Decision → Step A
  go : A → Step A

infixl 5 ◌>>=◌ ◌>>◌
abbrev pub ◌>>=◌ : {A B : Type 0} → Step A → (A → Step B) → Step B
stop d >>= f = stop d
go a >>= f = f a

abbrev pub ◌>>◌ : {B : Type 0} → Step (Unit {0}) → Step B → Step B
m >> k = m >>= λ _. k

abbrev pub decide : Step Decision → Decision
decide (stop d) = d
decide (go d) = d

-- `if b: return d`
abbrev pub stop_if : Bool → Decision → Step (Unit {0})
stop_if b d = if b then stop d else go tt

-- `ResolvedPrincipals`
pub record Principals : Type 0 where
  pub user : Option User
  pub agent : Option Agent
  pub service_account : Option ServiceAccount
  pub user_permissions : PermissionSet
  pub agent_permissions : PermissionSet
  pub service_account_permissions : PermissionSet

abbrev pub required_tool_scope : String
required_tool_scope = "mcp:tools"

-- `_policy_name`
abbrev pub policy_name : PermissionSet → Option String
policy_name s = if is_empty s.sources then none else some (join ", " s.sources)

abbrev pub sa_details : ServiceAccount → Fields
sa_details sa = field "service_account" (str sa.name) end

unfoldable pub check_identity : RequestContext → Step (Unit {0})
check_identity ctx =
    stop_if (is_none ctx.user_id && (is_none ctx.agent_id && is_none ctx.service_account_id))
      (deny_bare no_base Reason.unauthenticated)

unfoldable pub check_scope : RequestContext → Base → Step (Unit {0})
check_scope ctx base =
    stop_if (not (is_empty ctx.scopes) && not (contains required_tool_scope ctx.scopes))
      (deny_with base Reason.missing_scope none (field "scopes" (arr (texts ctx.scopes)) end))

unfoldable pub check_availability : Tool → McpServer → Base → Step (Unit {0})
check_availability tool server base =
    stop_if (not tool.enabled) (deny_bare base Reason.tool_disabled)
    >> stop_if (not server.enabled) (deny_bare base Reason.server_disabled)

abbrev pub resolve_user : Db → Option String → Base → Step (Option User)
resolve_user db id base =
    if truthy id
    then elim (get_user db (text_of id)) [
      | none ↦ stop (deny_bare base Reason.unauthenticated)
      | some u ↦ if u.is_active then go (some u) else stop (deny_bare base Reason.identity_disabled)
    ]
    else go none

-- A service account that presents its own credential is its own principal.
abbrev pub resolve_own_account : Db → RequestContext → Base → Step (Option ServiceAccount)
resolve_own_account db ctx base =
    if truthy ctx.service_account_id && (not (truthy ctx.user_id) && not (truthy ctx.agent_id))
    then elim (resolve_service_account db (text_of ctx.service_account_id)) [
      | none ↦ stop (deny_bare base Reason.identity_disabled)
      | some s ↦ if s.is_active then go (some s) else stop (deny_bare base Reason.identity_disabled)
    ]
    else go none

abbrev pub resolve_acting_agent : Db → Option String → Base → Step (Option Agent)
resolve_acting_agent db id base =
    if truthy id
    then elim (get_agent db (text_of id)) [
      | none ↦ stop (deny_bare base Reason.unauthenticated)
      | some a ↦ if a.is_active then go (some a) else stop (deny_bare base Reason.identity_disabled)
    ]
    else go none

-- The permissions of an identity that may be absent: the default is the empty set.
abbrev pub permissions_or_none : {A : Type 0} → (A → PermissionSet) → Option A → PermissionSet
permissions_or_none f none = no_permissions
permissions_or_none f (some a) = f a

abbrev pub principals_of : Db → Option User → Option ServiceAccount → Option Agent → Principals
principals_of db user sa agent = record {
  user = user;
  agent = agent;
  service_account = sa;
  user_permissions = permissions_or_none (permissions_for_user db) user;
  agent_permissions = permissions_or_none (permissions_for_agent db) agent;
  service_account_permissions = permissions_or_none (permissions_for_service_account db) sa;
}

unfoldable pub resolve_principals : Db → RequestContext → Base → Step Principals
resolve_principals db ctx base = do
  user ← resolve_user db ctx.user_id base
  sa ← resolve_own_account db ctx base
  agent ← resolve_acting_agent db ctx.agent_id base
  go (principals_of db user sa agent)

abbrev pub is_user_persona : Persona → Bool
is_user_persona Persona.user = true
is_user_persona Persona.non_user = false

abbrev pub is_autonomous : Agent → Bool
is_autonomous a = elim a.kind [ AgentKind.autonomous ↦ true | AgentKind.delegated ↦ false ]

abbrev pub has_autonomous : Option Agent → Bool
has_autonomous none = false
has_autonomous (some a) = is_autonomous a

abbrev agent_details : Option Agent → Fields
agent_details none = end
agent_details (some a) = field "agent" (str a.name) end

unfoldable pub check_persona : RequestContext → Principals → Base → Step (Unit {0})
check_persona ctx p base =
    stop_if (not (is_user_persona ctx.persona) && is_some ctx.user_id)
      (deny_bare base Reason.persona_violation)
    >> stop_if (is_user_persona ctx.persona && is_none ctx.user_id)
        (deny_bare base Reason.persona_violation)
    >> stop_if (has_autonomous p.agent && is_some ctx.user_id)
        (deny_with base Reason.persona_violation none (agent_details p.agent))

check_deny : String → String → Base → PermissionSet → Step (Unit {0})
check_deny label permission base s =
    let pattern = if is_nonempty s then denied_by s permission else none in
    stop_if (truthy pattern) (
      deny_with base Reason.explicit_deny (policy_name s)
        (field "matched_pattern" (str (text_of pattern)) (field "denied_by" (str label) end)))

-- Explicit denies win over everything else.
unfoldable pub check_denies : String → Base → Principals → Step (Unit {0})
unfolding check_deny
check_denies permission base p =
    check_deny "user" permission base p.user_permissions
    >> check_deny "agent" permission base p.agent_permissions

unfoldable pub check_user_holds : String → Base → Principals → Step (Unit {0})
check_user_holds permission base p =
    stop_if (is_some p.user && not (permits p.user_permissions permission))
      (deny_with base Reason.missing_permission (policy_name p.user_permissions) end)

-- effective = user ∩ agent
unfoldable pub check_agent_holds : String → Base → Principals → Step (Unit {0})
check_agent_holds permission base p =
    stop_if (is_some p.agent && not (permits p.agent_permissions permission)) (
      deny_with base
        (if is_none p.user then Reason.agent_not_permitted else Reason.exceeds_user_permissions)
        (policy_name p.agent_permissions) end)
