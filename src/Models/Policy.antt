-- ===== src/Models/Policy.antt =====
-- agentid/models/policy.py: roles and their entries. An entry holds the name of its permission:
-- no permission is ever renamed or deleted.
use agentid_mcp_gateway.Prelude.{
  String, Option, Bool, true, false, List, [], ◌∷◌, if◌then◌else◌, set_add,
}

pub data Effect : Type 0 where
  allow deny : Effect

pub record Permission : Type 0 where
  pub name : String
  pub description : Option String

pub record RolePermission : Type 0 where
  pub permission : String
  pub effect : Effect

pub record Role : Type 0 where
  pub id : String
  pub name : String
  pub description : Option String
  pub entries : List RolePermission

-- the test `e.effect == effect`
abbrev pub effect_eq : Effect → Effect → Bool
effect_eq Effect.allow Effect.allow = true
effect_eq Effect.deny Effect.deny = true
effect_eq _ _ = false

abbrev pub names_with : Effect → List RolePermission → List String
names_with effect [] = []
names_with effect (e ∷ es) =
    let rest = names_with effect es in
    if effect_eq e.effect effect then set_add e.permission rest else rest

-- `Role.allowed`
pub allowed : Role → List String
allowed role = names_with Effect.allow role.entries

-- `Role.denied`
pub denied : Role → List String
denied role = names_with Effect.deny role.entries
