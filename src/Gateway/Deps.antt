-- ===== src/Gateway/Deps.antt =====
-- agentid/gateway/deps.py: the permissions of the caller of an administrative route, the key of its
-- rate limit, and the guard of the routes for humans.
pub mod Admin
use agentid_mcp_gateway.Prelude.{
  String, Bool, true, false, not, ◌&&◌, ◌||◌, Option, none, some, List, [], ◌∷◌, ◌==◌, truthy,
  is_some, is_none, if◌then◌else◌,
}
use agentid_mcp_gateway.Context.{RequestContext, execution_identity, is_delegated, text_of}
use agentid_mcp_gateway.Errors.{Result, ok, raise, error, ErrorKind}
use agentid_mcp_gateway.Models.{Db, User, Agent, ServiceAccount, Persona}
use agentid_mcp_gateway.Identity.Users.{get_user}
use agentid_mcp_gateway.Identity.Agents.{get_agent}
use agentid_mcp_gateway.Identity.ServiceAccounts.{get_service_account}
use agentid_mcp_gateway.Authorization.Permissions.{
  PermissionSet, intersect, is_nonempty, permits, sorted,
}
use agentid_mcp_gateway.Authorization.Rbac.{
  permissions_for_user, permissions_for_agent, permissions_for_service_account,
}
use agentid_mcp_gateway.Gateway.Auth.{is_user_persona}

abbrev pub admin_permission : String
admin_permission = "agentid.admin"

unfoldable pub rate_limit_key : RequestContext → String
rate_limit_key ctx =
    if not (execution_identity ctx == "anonymous")
    then execution_identity ctx
    else if truthy ctx.client
    then text_of ctx.client
    else "anon"

-- the set of the user and of the agent that acts for them
abbrev pub bounded : PermissionSet → PermissionSet → PermissionSet
bounded base agent = if is_nonempty agent then intersect base agent else base

unfoldable pub delegate_permissions : Db → PermissionSet → Option String → Option PermissionSet
delegate_permissions db base agent_id =
    if truthy agent_id
    then (elim (get_agent db (text_of agent_id)) [
      | none ↦ none
      | some a ↦ some (bounded base (permissions_for_agent db a))
    ])
    else some base

-- `_permissions_for`
unfoldable pub permissions_for : Db → RequestContext → Option PermissionSet
permissions_for db ctx =
    if truthy ctx.user_id
    then (elim (get_user db (text_of ctx.user_id)) [
      | none ↦ none
      | some u ↦ delegate_permissions db (permissions_for_user db u) ctx.agent_id
    ])
    else if truthy ctx.agent_id
    then (elim (get_agent db (text_of ctx.agent_id)) [
      | none ↦ none
      | some a ↦ some (permissions_for_agent db a)
    ])
    else if truthy ctx.service_account_id
    then (elim (get_service_account db (text_of ctx.service_account_id)) [
      | none ↦ none
      | some sa ↦ some (permissions_for_service_account db sa)
    ])
    else none

abbrev pub permitted : Option PermissionSet → String → Bool
permitted none permission = false
permitted (some s) permission = permits s permission

unfoldable pub require_admin : Db → RequestContext → Result RequestContext
require_admin db ctx =
    if permitted (permissions_for db ctx) admin_permission
    then ok ctx
    else raise (error ErrorKind.authorization_error "missing_permission")

unfoldable pub user_persona_only : RequestContext → Result RequestContext
user_persona_only ctx =
    if not (is_user_persona ctx.persona) || is_none ctx.user_id
    then raise (error ErrorKind.authorization_error "persona_violation")
    else ok ctx

-- the answer of `whoami` of agentid/gateway/api/auth.py
pub record WhoAmI : Type 0 where
  pub request_id : String
  pub persona : Persona
  pub user_id : Option String
  pub agent_id : Option String
  pub service_account_id : Option String
  pub execution_identity : String
  pub delegated : Bool
  pub scopes : List String
  pub permissions : List String
  pub denied : List String

abbrev sorted_allow : Option PermissionSet → List String
sorted_allow none = []
sorted_allow (some s) = sorted s.allow

abbrev sorted_deny : Option PermissionSet → List String
sorted_deny none = []
sorted_deny (some s) = sorted s.deny

pub whoami : Db → RequestContext → WhoAmI
whoami db ctx = record {
  request_id = ctx.request_id;
  persona = ctx.persona;
  user_id = ctx.user_id;
  agent_id = ctx.agent_id;
  service_account_id = ctx.service_account_id;
  execution_identity = execution_identity ctx;
  delegated = is_delegated ctx;
  scopes = ctx.scopes;
  permissions = sorted_allow (permissions_for db ctx);
  denied = sorted_deny (permissions_for db ctx);
}
