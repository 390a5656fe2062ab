-- ===== src/Gateway/Policy.antt =====
-- agentid/gateway/api/policy.py: the routes that write roles and that give them to identities, with their
-- audit events. The guard of administrators has passed, and `admin` is its context.
use agentid_mcp_gateway.Prelude.{
  ℕ, String, Bool, Option, none, some, List, [], ◌∷◌, ◌==◌, map, select, distinct, true, sort_by,
  text_leb, update_where,
}
use agentid_mcp_gateway.Context.{RequestContext}
use agentid_mcp_gateway.Errors.{Result, ok, raise, error, ErrorKind, ◌>>=◌}
use agentid_mcp_gateway.Json.{field, str, arr, texts, end}
use agentid_mcp_gateway.Models.{Db, Role, RolePermission, Agent, ServiceAccount, Effect, effect_eq}
use agentid_mcp_gateway.Audit.Events.{log, no_extra}
use agentid_mcp_gateway.Authorization.Permissions.{sorted}
use agentid_mcp_gateway.Authorization.Policies.{PolicyDocument, apply}
use agentid_mcp_gateway.Authorization.Rbac.{get_role, roles_of, upsert_role}
use agentid_mcp_gateway.Identity.Users.{require_user, assign_roles}
use agentid_mcp_gateway.Identity.Agents.{require_agent}
use agentid_mcp_gateway.Identity.ServiceAccounts.{require_service_account}

pub record RoleResponse : Type 0 where
  pub name : String
  pub description : Option String
  pub allow : List String
  pub deny : List String

-- `Role.allowed` and `Role.denied`: the set of the names with one effect
abbrev names_with : Effect → Role → List String
names_with effect role = distinct (
    map (λ (e : RolePermission). e.permission)
      (select (λ (e : RolePermission). effect_eq e.effect effect) role.entries))

abbrev role_response : Role → RoleResponse
role_response role = record {
  name = role.name;
  description = role.description;
  allow = sorted (names_with Effect.allow role);
  deny = sorted (names_with Effect.deny role);
}

-- the route `put_role`
unfoldable pub put_role_route :
    ℕ → String → RequestContext → PolicyDocument → Db → Result (RoleResponse × Db)
put_role_route now fresh admin body db = do
  r ← upsert_role fresh body.role body.allow body.deny body.description true db
  ok (
    role_response r.0,
    log now admin "admin.change" "allow"
        (record no_extra { reason = some "role.upsert"; policy = some r.0.name }) r.1,
  )

pub get_single_role : String → Db → Result RoleResponse
get_single_role name db = elim (get_role db name) [
  | none ↦ raise (error ErrorKind.not_found_error "unknown_role")
  | some role ↦ ok (role_response role)
]

-- The route `apply_bundle`, from the documents of the bundle. A role that two documents name is answered
-- as the last of them leaves it.
unfoldable pub apply_bundle :
    ℕ → (ℕ → String) → RequestContext → List PolicyDocument → Db → Result (List RoleResponse × Db)
apply_bundle now fresh admin bundle db = do
  r ← apply fresh 0 bundle db
  ok (
    map role_response (roles_of r.1 (map (λ (role : Role). role.id) r.0)),
    log now admin "admin.change" "allow"
        (record no_extra {
          reason = some "policy.bundle";
          details = field "roles" (arr (texts (map (λ (role : Role). role.name) r.0))) end;
        })
        r.1,
  )

-- the route `assign_user_roles`, whose answer is the names of the roles
unfoldable pub assign_user_roles :
    ℕ → RequestContext → String → List String → Db → Result (List String × Db)
assign_user_roles now admin user_id roles db = do
  user ← require_user db user_id
  r ← assign_roles user roles db
  ok (
    map (λ (role : Role). role.name) (roles_of db r.0.roles),
    log now admin "admin.change" "allow"
        (record no_extra {
          reason = some "user.roles";
          details = field "user" (str user.id) (field "roles" (arr (texts roles)) end);
        })
        r.1,
  )

-- `list_roles`
abbrev role_before : Role → Role → Bool
role_before a b = text_leb a.name b.name

pub list_all_roles : Db → List RoleResponse
list_all_roles db = map role_response (sort_by role_before db.roles)

-- The loop over the names of `body.roles`. A name that is given twice is not modelled: its second row breaks
-- the key of the join table.
unfoldable pub named_roles : Db → List String → Result (List Role)
named_roles db [] = ok []
named_roles db (name ∷ names) = elim (get_role db name) [
  | none ↦ raise (error ErrorKind.not_found_error "unknown_role")
  | some role ↦ do rest ← named_roles db names; ok (role ∷ rest)
]

abbrev ids_of : List Role → List String
ids_of = map (λ (role : Role). role.id)

-- the event of a change to the roles of an identity
abbrev assigned : ℕ → RequestContext → String → String → String → List String → Db → Db
assigned now admin change kind id roles db =
    log now admin "admin.change" "allow"
      (record no_extra {
        reason = some change;
        details = field kind (str id) (field "roles" (arr (texts roles)) end);
      })
      db

unfoldable pub assign_agent_roles :
    ℕ → RequestContext → String → List String → Db → Result (List String × Db)
assign_agent_roles now admin agent_id roles db = do
  agent ← require_agent db agent_id
  found ← named_roles db roles
  ok (
    map (λ (role : Role). role.name) found,
    assigned now admin "agent.roles" "agent" agent.id roles (record db {
      agents =
          update_where (λ (a : Agent). a.id == agent.id) (λ a. record a { roles = ids_of found })
            db.agents;
    }),
  )

-- the route `assign_sa_roles`
unfoldable pub assign_sa_roles :
    ℕ → RequestContext → String → List String → Db → Result (List String × Db)
assign_sa_roles now admin sa_id roles db = do
  sa ← require_service_account db sa_id
  found ← named_roles db roles
  ok (
    map (λ (role : Role). role.name) found,
    assigned now admin "service_account.roles" "service_account" sa.id roles (record db {
      service_accounts =
          update_where (λ (s : ServiceAccount). s.id == sa.id)
            (λ s. record s { roles = ids_of found }) db.service_accounts;
    }),
  )
