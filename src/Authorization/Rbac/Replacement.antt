-- ===== src/Authorization/Rbac/Replacement.antt =====
-- agentid/authorization/rbac.py: a role that `upsert_role` replaces is what the policy says.
use agentid_mcp_gateway.Prelude.{
  String, Bool, true, false, not, ◌&&◌, ◌||◌, Option, none, some, List, [], ◌∷◌, ◌++◌, ◌≡◌, refl,
  sym, ◌∙◌, arith, ◌==◌, eq_iff, inl, inr, Bool-cases, Option-cases, find_first, find_first-passes,
  ap, update_where, truthy, if◌then◌else◌,
}
use mathlib.Core.Path.{subst}
use agentid_mcp_gateway.Errors.{ok}
use agentid_mcp_gateway.Models.{Db, Role, RolePermission, Effect}
use agentid_mcp_gateway.Authorization.Permissions.{permits}
use agentid_mcp_gateway.Authorization.Permissions.Sets.{some_match}
use agentid_mcp_gateway.Authorization.Rbac.{
  from_roles, upsert_role, entries_unique, added_entries, get_role, put_role, find_or_create_role,
  upsert_permission, upsert_entry_permissions,
}
use agentid_mcp_gateway.Authorization.Rbac.Laws.{entry_match, permits-from_roles}

module _ (p q : Role → Bool) (y : Role) (p_y : p y ≡ true) where
  -- a row that is written to where the test of the write holds is found where it was found
  find_first-written :
      (x : Role) (xs : List Role)
      → find_first p xs ≡ some x
      → q x ≡ true
      → find_first p (update_where q (λ r. y) xs) ≡ some y
  find_first-written x [] found q_x = ground arith
  find_first-written x (r ∷ rs) found q_x = ground (arith, p_y, find_first-written x rs)

  -- a row that was added is found
  find_first-added :
      (xs : List Role) (x : Role)
      → find_first p xs ≡ none
      → q x ≡ true
      → find_first p (update_where q (λ r. y) (xs ++ x ∷ [])) ≡ some y
  find_first-added [] x missing q_x = ground (arith, p_y)
  find_first-added (r ∷ rs) x missing q_x = ground (arith, p_y, find_first-added rs x)

-- the permissions of the entries are added beside the roles
roles-upsert_entry_permissions :
    (es : List RolePermission) (db : Db) → (upsert_entry_permissions es db).roles ≡ db.roles
unfolding upsert_entry_permissions upsert_permission
roles-upsert_entry_permissions [] db = refl
roles-upsert_entry_permissions (e ∷ es) db =
    roles-upsert_entry_permissions es (upsert_permission e.permission none db) ∙ ground arith

entry_match-append :
    (effect : Effect) (q : String) (es fs : List RolePermission)
    → entry_match effect (es ++ fs) q ≡ (entry_match effect es q || entry_match effect fs q)
entry_match-append effect q [] fs = refl
entry_match-append effect q (e ∷ es) fs = ground (arith, entry_match-append effect q es fs)

-- of entries that are all added, those of the one effect match what the names do
entry_match-added_entries :
    (effect : Effect) (q : String) (ns : List String)
    → entry_match effect (added_entries effect ns []) q ≡ some_match ns q
entry_match-added_entries effect q [] = refl
entry_match-added_entries Effect.allow q (n ∷ ns) =
    ground (arith, entry_match-added_entries Effect.allow q ns)
entry_match-added_entries Effect.deny q (n ∷ ns) =
    ground (arith, entry_match-added_entries Effect.deny q ns)

entry_match-added_entries_ne :
    (q : String) (ns : List String)
    → (entry_match Effect.deny (added_entries Effect.allow ns []) q ≡ false)
      × (entry_match Effect.allow (added_entries Effect.deny ns []) q ≡ false)
entry_match-added_entries_ne q [] = (refl, refl)
entry_match-added_entries_ne q (n ∷ ns) =
    let (allow, deny) = entry_match-added_entries_ne q ns in (ground arith, ground arith)

-- the entries of a role that was replaced
abbrev pub policy_entries : List String → List String → List RolePermission
policy_entries allow deny = added_entries Effect.allow allow [] ++ added_entries Effect.deny deny []

-- the role that is written to: a new one, or the one of this name with its new description
abbrev base_role : String → String → Option String → Db → Role
base_role fresh name description db = (find_or_create_role fresh name description db).0

abbrev replaced : String → String → List String → List String → Option String → Db → Role
replaced fresh name allow deny description db = record (base_role fresh name description db) {
  entries = policy_entries allow deny;
}

-- what one role with the entries of a policy permits
permits-policy :
    (allow deny : List String) (role : Role) (q : String)
    → role.entries ≡ policy_entries allow deny
    → permits (from_roles (role ∷ [])) q ≡ (not (some_match deny q) && some_match allow q)
permits-policy allow deny role q entries =
    let a = added_entries Effect.allow allow [] in
    let d = added_entries Effect.deny deny [] in
    permits-from_roles q (role ∷ [])
    ∙ rw entries (
        ground (
          arith,
          entry_match-append Effect.allow q a d,
          entry_match-append Effect.deny q a d,
          entry_match-added_entries Effect.allow q allow,
          entry_match-added_entries Effect.deny q deny,
          (entry_match-added_entries_ne q allow).0,
          (entry_match-added_entries_ne q deny).1,
        ))

-- what an `upsert_role` that replaces has returned and written
upsert_role-ok :
    (fresh name : String) (allow deny : List String) (description : Option String) (db db' : Db)
    (role : Role)
    → upsert_role fresh name allow deny description true db ≡ ok (role, db')
    → (replaced fresh name allow deny description db ≡ role)
      × (put_role (replaced fresh name allow deny description db) (
            upsert_entry_permissions
              (policy_entries allow deny)
              (find_or_create_role fresh name description db).1)
          ≡ db')
unfolding upsert_role
upsert_role-ok fresh name allow deny description db db' role h =
    elim (Bool-cases (entries_unique (policy_entries allow deny))) [
      | inl e ↦ (ground arith, ground arith)
      | inr e ↦ absurd (ground arith)
    ]

new_role : String → String → Option String → Role
new_role fresh name description = record {
  id = fresh;
  name = name;
  description = description;
  entries = [];
}

described : Option String → Role → Role
described description x = if truthy description then record x { description = description } else x

find_or_create_role-none :
    (fresh name : String) (description : Option String) (db : Db)
    → get_role db name ≡ none
    → find_or_create_role fresh name description db ≡ (
      new_role fresh name description,
      record db { roles = db.roles ++ new_role fresh name description ∷ [] },
    )
unfolding new_role
find_or_create_role-none fresh name description db e = rw (find_or_create_role, e) refl

find_or_create_role-some :
    (fresh name : String) (description : Option String) (db : Db) (x : Role)
    → get_role db name ≡ some x
    → find_or_create_role fresh name description db ≡ (described description x, db)
unfolding described
find_or_create_role-some fresh name description db x e = rw (find_or_create_role, e) refl

-- the role that is written over the one that was found or made, and the database after that
abbrev rewritten : List RolePermission → Role → Role
rewritten es role = record role { entries = es }

abbrev Found : String → List RolePermission → Role × Db → Type 0
Found name es (role, db) =
    get_role (put_role (rewritten es role) (upsert_entry_permissions es db)) name
    ≡ some (rewritten es role)

Found-none :
    (fresh name : String) (description : Option String) (db : Db) (es : List RolePermission)
    → get_role db name ≡ none
    → Found name es (
      new_role fresh name description,
      record db { roles = db.roles ++ new_role fresh name description ∷ [] },
    )
unfolding get_role new_role
Found-none fresh name description db es e =
    let role = new_role fresh name description in
    rw (roles-upsert_entry_permissions es (record db { roles = db.roles ++ role ∷ [] })) (
      find_first-added (λ (r : Role). r.name == name) (λ (r : Role). r.id == fresh)
        (rewritten es role) (ground (arith, eq_iff name name)) db.roles role e
        (ground (arith, eq_iff fresh fresh)))

Found-some :
    (name : String) (description : Option String) (db : Db) (es : List RolePermission) (x : Role)
    → get_role db name ≡ some x
    → Found name es (described description x, db)
unfolding get_role described
Found-some name description db es x e =
    let role = rewritten es (described description x) in
    let named = find_first-passes (λ (r : Role). r.name == name) db.roles e in
    rw (roles-upsert_entry_permissions es db) (
      find_first-written (λ (r : Role). r.name == name) (λ (r : Role). r.id == role.id) role
        (ground (arith, named)) x db.roles e (ground (arith, eq_iff x.id x.id)))

-- the role is found by its name after the write
get_role-replaced :
    (fresh name : String) (allow deny : List String) (description : Option String) (db : Db)
    → Found name (policy_entries allow deny) (find_or_create_role fresh name description db)
get_role-replaced fresh name allow deny description db =
    let es = policy_entries allow deny in
    elim (Option-cases (get_role db name)) [
      | inl e ↦
          subst (Found name es) (sym (find_or_create_role-none fresh name description db e))
            (Found-none fresh name description db es e)
      | inr (x, e) ↦
          subst (Found name es) (sym (find_or_create_role-some fresh name description db x e))
            (Found-some name description db es x e)
    ]

-- A policy is the source of truth for its role: where an `upsert_role` that replaces succeeds, the role
-- is found by its name, and a user who has that role alone is permitted exactly what some entry of
-- `allow` matches and no entry of `deny` does, whatever the role held before.
pub upsert_role_replaces :
    (fresh name : String) (allow deny : List String) (description : Option String) (db db' : Db)
    (role : Role)
    → upsert_role fresh name allow deny description true db ≡ ok (role, db')
    → (get_role db' name ≡ some role)
      × ((q : String)
          → permits (from_roles (role ∷ [])) q ≡ (not (some_match deny q) && some_match allow q))
upsert_role_replaces fresh name allow deny description db db' role h =
    let (is_role, is_db) = upsert_role-ok fresh name allow deny description db db' role h in
    (
      sym (ap (λ d. get_role d name) is_db)
          ∙ get_role-replaced fresh name allow deny description db
          ∙ ap (λ r. some r) is_role,
      λ q. permits-policy allow deny role q (sym (ap (λ (r : Role). r.entries) is_role)),
    )
