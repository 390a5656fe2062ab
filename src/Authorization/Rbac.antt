-- ===== src/Authorization/Rbac.antt =====
-- agentid/authorization/rbac.py: from the roles of an identity to its permission set, and the
-- administration of roles. Permissions and roles are stored rows; `upsert_role` writes them.
pub mod Laws
pub mod Replacement
use agentid_mcp_gateway.Prelude.{
  String, Bool, true, false, not, ◌&&◌, ◌||◌, Option, none, some, List, [], ◌∷◌, ◌++◌, ◌==◌, map,
  set_add, any, find_first, update_where, truthy, if◌then◌else◌, is_some,
}
use agentid_mcp_gateway.Errors.{Result, ok, raise, integrity_error}
use agentid_mcp_gateway.Models.{
  Db, User, Agent, ServiceAccount, Permission, Role, RolePermission, Effect, effect_eq,
}
use agentid_mcp_gateway.Authorization.Permissions.{PermissionSet}

abbrev add_found : Option Role → List Role → List Role
add_found none rest = rest
add_found (some r) rest = r ∷ rest

-- The rows that a join table leads to: those of the ids that are there.
unfoldable pub roles_of : Db → List String → List Role
roles_of db [] = []
roles_of db (i ∷ is) = add_found (find_first (λ (r : Role). r.id == i) db.roles) (roles_of db is)

add_entry : RolePermission → PermissionSet → PermissionSet
add_entry e s =
    if effect_eq e.effect Effect.deny
    then record s { deny = set_add e.permission s.deny }
    else record s { allow = set_add e.permission s.allow }

add_entries : List RolePermission → PermissionSet → PermissionSet
add_entries [] s = s
add_entries (e ∷ es) s = add_entries es (add_entry e s)

add_roles : List Role → PermissionSet → PermissionSet
add_roles [] s = s
add_roles (r ∷ rs) s = add_roles rs (add_entries r.entries s)

-- `_from_roles`
unfoldable pub from_roles : List Role → PermissionSet
unfolding add_entry add_entries add_roles
from_roles roles =
    add_roles roles (record { allow = []; deny = []; sources = map (λ (r : Role). r.name) roles })

unfoldable pub permissions_for_user : Db → User → PermissionSet
permissions_for_user db user = from_roles (roles_of db user.roles)

unfoldable pub permissions_for_agent : Db → Agent → PermissionSet
permissions_for_agent db agent = from_roles (roles_of db agent.roles)

unfoldable pub permissions_for_service_account : Db → ServiceAccount → PermissionSet
permissions_for_service_account db sa = from_roles (roles_of db sa.roles)

pub all_permission_names : Db → List String
all_permission_names db = map (λ (p : Permission). p.name) db.permissions

unfoldable pub get_role : Db → String → Option Role
get_role db name = find_first (λ (r : Role). r.name == name) db.roles

abbrev describe : Option String → Permission → Permission
describe description p =
    if truthy description && not (truthy p.description)
    then record p { description = description }
    else p

-- The permission of a name, which is added where it is not there.
unfoldable pub upsert_permission : String → Option String → Db → Db
upsert_permission name description db =
    if any (λ (p : Permission). p.name == name) db.permissions
    then record db {
      permissions =
          update_where (λ (p : Permission). p.name == name) (describe description) db.permissions;
    }
    else record db {
      permissions = db.permissions ++ record { name = name; description = description } ∷ [];
    }

-- `(perm_name, effect) in existing`
abbrev pub has_entry : String → Effect → List RolePermission → Bool
has_entry name effect =
    any (λ (e : RolePermission). e.permission == name && effect_eq e.effect effect)

-- The loop over the names of one effect; `existing` is not extended by what the loop adds.
abbrev pub added_entries : Effect → List String → List RolePermission → List RolePermission
added_entries effect [] existing = []
added_entries effect (n ∷ ns) existing =
    let rest = added_entries effect ns existing in
    if has_entry n effect existing then rest else record { permission = n; effect = effect } ∷ rest

unfoldable pub upsert_entry_permissions : List RolePermission → Db → Db
upsert_entry_permissions [] db = db
upsert_entry_permissions (e ∷ es) db =
    upsert_entry_permissions es (upsert_permission e.permission none db)

-- The unique constraint on role, permission and effect.
abbrev pub entries_unique : List RolePermission → Bool
entries_unique [] = true
entries_unique (e ∷ es) = not (has_entry e.permission e.effect es) && entries_unique es

abbrev pub find_or_create_role : String → String → Option String → Db → Role × Db
find_or_create_role fresh name description db = elim (get_role db name) [
  | none ↦
      let role : Role = record {
        id = fresh;
        name = name;
        description = description;
        entries = [];
      } in
      (role, record db { roles = db.roles ++ role ∷ [] })
  | some role ↦
      ((if truthy description then record role { description = description } else role), db)
]

abbrev pub put_role : Role → Db → Db
put_role role db = record db {
  roles = update_where (λ (r : Role). r.id == role.id) (λ r. role) db.roles;
}

-- `fresh` is the id that the database makes for a new row. A flush that breaks the unique constraint
-- raises and rolls the transaction back, so a raise carries no state.
unfoldable pub upsert_role :
    String → String → List String → List String → Option String → Bool → Db → Result (Role × Db)
unfolding get_role upsert_entry_permissions upsert_permission
upsert_role fresh name allow deny description replace db =
    let (role, db') = find_or_create_role fresh name description db in
    let existing = if replace then [] else role.entries in
    let added =
      added_entries Effect.allow allow existing ++ added_entries Effect.deny deny existing in
    let role' : Role = record role { entries = existing ++ added } in
    if entries_unique (existing ++ added)
    then ok (role', put_role role' (upsert_entry_permissions added db'))
    else raise integrity_error
