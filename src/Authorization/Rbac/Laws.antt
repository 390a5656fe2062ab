-- ===== src/Authorization/Rbac/Laws.antt =====
-- What the roles of an identity permit, and what `upsert_role` of rbac.py leaves in a role.
use agentid_mcp_gateway.Prelude.{
  String, Bool, true, false, not, ◌&&◌, ◌||◌, Option, List, [], ◌∷◌, ◌++◌, ◌≡◌, refl, arith, any,
  contains, any-set_add, inl, inr, Bool-cases, map,
}
use agentid_mcp_gateway.Errors.{raise, integrity_error}
use agentid_mcp_gateway.Models.{Db, Role, RolePermission, Effect, effect_eq}
use agentid_mcp_gateway.Authorization.Permissions.{PermissionSet, matches, permits}
use agentid_mcp_gateway.Authorization.Permissions.Sets.{some_match, permits-eq}
use agentid_mcp_gateway.Authorization.Rbac.{
  add_entry, add_entries, add_roles, from_roles, upsert_role, entries_unique, added_entries,
  has_entry,
}

-- some entry of the effect matches
abbrev pub entry_match : Effect → List RolePermission → String → Bool
entry_match effect es q =
    any (λ (e : RolePermission). effect_eq e.effect effect && matches e.permission q) es

-- some entry of some role does
abbrev pub role_match : Effect → List Role → String → Bool
role_match effect rs q = any (λ (r : Role). entry_match effect r.entries q) rs

module _ (q : String) where
  deny-add_entry :
      (e : RolePermission) (s : PermissionSet)
      → some_match (add_entry e s).deny q
        ≡ (some_match s.deny q || (effect_eq e.effect Effect.deny && matches e.permission q))
  unfolding add_entry
  deny-add_entry e s = elim (Bool-cases (effect_eq e.effect Effect.deny)) [
    | inl d ↦ rw d (any-set_add (λ p. matches p q) e.permission s.deny)
    | inr d ↦ rw d (ground arith)
  ]

  allow-add_entry :
      (e : RolePermission) (s : PermissionSet)
      → some_match (add_entry e s).allow q
        ≡ (some_match s.allow q || (effect_eq e.effect Effect.allow && matches e.permission q))
  unfolding add_entry
  allow-add_entry e s = ground (arith, any-set_add (λ p. matches p q) e.permission s.allow)

  deny-add_entries :
      (es : List RolePermission) (s : PermissionSet)
      → some_match (add_entries es s).deny q ≡ (some_match s.deny q || entry_match Effect.deny es q)
  unfolding add_entries
  deny-add_entries [] s = ground arith
  deny-add_entries (e ∷ es) s =
      rw (deny-add_entries es (add_entry e s), deny-add_entry e s) (ground arith)

  allow-add_entries :
      (es : List RolePermission) (s : PermissionSet)
      → some_match (add_entries es s).allow q
        ≡ (some_match s.allow q || entry_match Effect.allow es q)
  unfolding add_entries
  allow-add_entries [] s = ground arith
  allow-add_entries (e ∷ es) s =
      rw (allow-add_entries es (add_entry e s), allow-add_entry e s) (ground arith)

  deny-add_roles :
      (rs : List Role) (s : PermissionSet)
      → some_match (add_roles rs s).deny q ≡ (some_match s.deny q || role_match Effect.deny rs q)
  unfolding add_roles
  deny-add_roles [] s = ground arith
  deny-add_roles (r ∷ rs) s =
      rw (deny-add_roles rs (add_entries r.entries s), deny-add_entries r.entries s) (ground arith)

  allow-add_roles :
      (rs : List Role) (s : PermissionSet)
      → some_match (add_roles rs s).allow q ≡ (some_match s.allow q || role_match Effect.allow rs q)
  unfolding add_roles
  allow-add_roles [] s = ground arith
  allow-add_roles (r ∷ rs) s =
      rw (allow-add_roles rs (add_entries r.entries s), allow-add_entries r.entries s)
        (ground arith)

  -- An identity is permitted what some entry of some of its roles allows and no entry of any of
  -- them denies, in whatever order the roles and the entries come.
  pub permits-from_roles :
      (rs : List Role)
      → permits (from_roles rs) q
        ≡ (not (role_match Effect.deny rs q) && role_match Effect.allow rs q)
  unfolding from_roles
  permits-from_roles rs =
      let start : PermissionSet = record {
        allow = [];
        deny = [];
        sources = map (λ (r : Role). r.name) rs;
      } in
      rw (permits-eq (add_roles rs start) q, deny-add_roles rs start, allow-add_roles rs start) refl

-- a name stands in the list twice
abbrev pub repeats : List String → Bool
repeats [] = false
repeats (n ∷ ns) = contains n ns || repeats ns

contains→has_entry :
    (effect : Effect) (n : String) (ns : List String)
    → contains n ns ≡ true
    → has_entry n effect (added_entries effect ns []) ≡ true
contains→has_entry effect n [] h = ground arith
contains→has_entry Effect.allow n (m ∷ ns) h = ground (arith, contains→has_entry Effect.allow n ns)
contains→has_entry Effect.deny n (m ∷ ns) h = ground (arith, contains→has_entry Effect.deny n ns)

has_entry-append :
    (n : String) (effect : Effect) (es fs : List RolePermission)
    → has_entry n effect (es ++ fs) ≡ (has_entry n effect es || has_entry n effect fs)
has_entry-append n effect [] fs = refl
has_entry-append n effect (e ∷ es) fs = ground (arith, has_entry-append n effect es fs)

repeated_entries :
    (effect : Effect) (ns : List String) (fs : List RolePermission)
    → repeats ns ≡ true
    → entries_unique (added_entries effect ns [] ++ fs) ≡ false
repeated_entries effect [] fs h = ground arith
repeated_entries effect (n ∷ ns) fs h = ground (
  arith,
  repeated_entries effect ns fs,
  contains→has_entry effect n ns,
  has_entry-append n effect (added_entries effect ns []) fs,
)

-- A policy that names a permission twice under `allow` is refused by the database, whatever the
-- role held before: the loop does not see the rows that it has added.
pub upsert_role_repeated :
    (fresh name : String) (allow deny : List String) (description : Option String) (db : Db)
    → repeats allow ≡ true
    → upsert_role fresh name allow deny description true db ≡ raise integrity_error
unfolding upsert_role
upsert_role_repeated fresh name allow deny description db h =
    rw (repeated_entries Effect.allow allow (added_entries Effect.deny deny []) h) refl
