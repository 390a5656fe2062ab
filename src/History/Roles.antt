-- ===== src/History/Roles.antt =====
-- agentid/gateway/api/policy.py: what its routes do to the ledger.
use agentid_mcp_gateway.Prelude.{
  ℕ, suc, String, true, Option, none, List, [], ◌∷◌, ◌++◌, ◌==◌, refl, any, Bool-cases,
  Option-cases, inl, inr,
}
use agentid_mcp_gateway.Context.{RequestContext}
use agentid_mcp_gateway.Errors.Holds.{Holds->>=, Holds->>=-Holds}
use agentid_mcp_gateway.Models.{Db, User, Role, Permission, RolePermission, Effect}
use agentid_mcp_gateway.Authorization.Policies.{PolicyDocument, apply}
use agentid_mcp_gateway.Authorization.Rbac.{
  find_or_create_role, get_role, upsert_entry_permissions, upsert_permission, upsert_role,
  added_entries, entries_unique,
}
use agentid_mcp_gateway.Identity.Agents.{require_agent}
use agentid_mcp_gateway.Identity.ServiceAccounts.{require_service_account}
use agentid_mcp_gateway.Identity.Users.{assign_roles, require_user, resolve_roles}
use agentid_mcp_gateway.Gateway.Policy.{
  RoleResponse, put_role_route, apply_bundle, assign_user_roles, assign_agent_roles,
  assign_sa_roles, named_roles,
}
use agentid_mcp_gateway.History.Accounts.{Leaves}
use agentid_mcp_gateway.History.Ledger.{Lawful, Lawful-quiet, Lawful-refl, Lawful-trans}
use agentid_mcp_gateway.History.Sessions.{Lawful-log}

Lawful-upsert_permission :
    (name : String) (description : Option String) (db : Db)
    → Lawful db (upsert_permission name description db)
unfolding upsert_permission
Lawful-upsert_permission name description db =
    elim (Bool-cases (any (λ (p : Permission). p.name == name) db.permissions)) [
      | inl e ↦ rw e (Lawful-quiet refl refl refl refl)
      | inr e ↦ rw e (Lawful-quiet refl refl refl refl)
    ]

Lawful-upsert_entry_permissions :
    (es : List RolePermission) (db : Db) → Lawful db (upsert_entry_permissions es db)
unfolding upsert_entry_permissions
Lawful-upsert_entry_permissions [] db = Lawful-refl db
Lawful-upsert_entry_permissions (e ∷ es) db =
    Lawful-trans (Lawful-upsert_permission e.permission none db)
      (Lawful-upsert_entry_permissions es _)

Lawful-find_or_create_role :
    (fresh name : String) (description : Option String) (db : Db)
    → Lawful db (find_or_create_role fresh name description db).1
Lawful-find_or_create_role fresh name description db = elim (Option-cases (get_role db name)) [
  | inl e ↦ rw (e, find_or_create_role) (Lawful-quiet refl refl refl refl)
  | inr (role, e) ↦ rw (e, find_or_create_role) (Lawful-refl db)
]

Leaves-upsert_role :
    (fresh name : String) (allow deny : List String) (description : Option String) (db : Db)
    → Leaves db Role (upsert_role fresh name allow deny description true db)
unfolding upsert_role
Leaves-upsert_role fresh name allow deny description db =
    let added = added_entries Effect.allow allow [] ++ added_entries Effect.deny deny [] in
    elim (Bool-cases (entries_unique added)) [
      | inl e ↦ rw e (
          Lawful-trans (Lawful-find_or_create_role fresh name description db) (
            Lawful-trans (Lawful-upsert_entry_permissions added _)
              (Lawful-quiet refl refl refl refl)))
      | inr e ↦ rw e tt
    ]

Leaves-apply :
    (fresh : ℕ → String) (n : ℕ) (ps : List PolicyDocument) (db : Db)
    → Leaves db (List Role) (apply fresh n ps db)
unfolding apply
Leaves-apply fresh n [] db = Lawful-refl db
Leaves-apply fresh n (p ∷ ps) db =
    Holds->>=-Holds _ _ (upsert_role (fresh n) p.role p.allow p.deny p.description true db) _
      (Leaves-upsert_role (fresh n) p.role p.allow p.deny p.description db)
      (λ r first.
        Holds->>=-Holds _ _ (apply fresh (suc n) ps r.1) _ (Leaves-apply fresh (suc n) ps r.1)
          (λ rest others. Lawful-trans first others))

Leaves-assign_roles :
    (user : User) (names : List String) (db : Db) → Leaves db User (assign_roles user names db)
unfolding assign_roles
Leaves-assign_roles user names db =
    Holds->>= _ (resolve_roles db names) _ (λ ids. Lawful-quiet refl refl refl refl)

module _ (now : ℕ) (admin : RequestContext) (db : Db) where
  pub Leaves-put_role_route :
      (fresh : String) (body : PolicyDocument)
      → Leaves db RoleResponse (put_role_route now fresh admin body db)
  unfolding put_role_route
  Leaves-put_role_route fresh body =
      Holds->>=-Holds _ _
        (upsert_role fresh body.role body.allow body.deny body.description true db) _
        (Leaves-upsert_role fresh body.role body.allow body.deny body.description db)
        (λ r lawful. Lawful-trans lawful (Lawful-log now admin "admin.change" "allow" _ r.1))

  pub Leaves-apply_bundle :
      (fresh : ℕ → String) (bundle : List PolicyDocument)
      → Leaves db (List RoleResponse) (apply_bundle now fresh admin bundle db)
  unfolding apply_bundle
  Leaves-apply_bundle fresh bundle =
      Holds->>=-Holds _ _ (apply fresh 0 bundle db) _ (Leaves-apply fresh 0 bundle db)
        (λ r lawful. Lawful-trans lawful (Lawful-log now admin "admin.change" "allow" _ r.1))

  pub Leaves-assign_user_roles :
      (id : String) (roles : List String)
      → Leaves db (List String) (assign_user_roles now admin id roles db)
  unfolding assign_user_roles
  Leaves-assign_user_roles id roles = Holds->>= _ (require_user db id) _ (λ user.
      Holds->>=-Holds _ _ (assign_roles user roles db) _ (Leaves-assign_roles user roles db)
        (λ r lawful. Lawful-trans lawful (Lawful-log now admin "admin.change" "allow" _ r.1)))

  pub Leaves-assign_agent_roles :
      (id : String) (roles : List String)
      → Leaves db (List String) (assign_agent_roles now admin id roles db)
  unfolding assign_agent_roles
  Leaves-assign_agent_roles id roles = Holds->>= _ (require_agent db id) _ (λ agent.
      Holds->>= _ (named_roles db roles) _ (λ found.
        Lawful-trans (Lawful-quiet refl refl refl refl)
          (Lawful-log now admin "admin.change" "allow" _ _)))

  pub Leaves-assign_sa_roles :
      (id : String) (roles : List String)
      → Leaves db (List String) (assign_sa_roles now admin id roles db)
  unfolding assign_sa_roles
  Leaves-assign_sa_roles id roles = Holds->>= _ (require_service_account db id) _ (λ sa.
      Holds->>= _ (named_roles db roles) _ (λ found.
        Lawful-trans (Lawful-quiet refl refl refl refl)
          (Lawful-log now admin "admin.change" "allow" _ _)))
