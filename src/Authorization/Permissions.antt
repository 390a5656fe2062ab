-- ===== src/Authorization/Permissions.antt =====
-- agentid/authorization/permissions.py: permission patterns and the sets of them that an identity
-- has. The theorems are in the modules below.
pub mod Matching
pub mod Sets
use agentid_mcp_gateway.Prelude.{
  ℕ, suc, String, Bool, true, false, not, ◌&&◌, ◌||◌, Option, none, some, List, [], ◌∷◌, ◌++◌, ◌==◌,
  eqb, leb, length, get_elem?, find_first, select, all, is_empty, is_some, is_none, split,
  set_union, set_inter, text_leb, distinct, if◌then◌else◌,
}

-- The loop over the segments of the pattern; `index` is the number of those before `parts`.
matches_loop : List String → List String → ℕ → List String → Bool
matches_loop p_parts v_parts index [] = eqb (length p_parts) (length v_parts)
matches_loop p_parts v_parts index (part ∷ parts) =
    let rest = matches_loop p_parts v_parts (suc index) parts in
    if part == "**" then leb index (length v_parts) else elim (get_elem? v_parts index) [
      | none ↦ false
      | some v ↦ if part == "*" then rest else if part == v then rest else false
    ]

unfoldable pub matches : String → String → Bool
unfolding matches_loop
matches pattern permission =
    if pattern == permission
    then true
    else if pattern == "*" || pattern == "**"
    then true
    else let p_parts = split b'.' pattern in matches_loop p_parts (split b'.' permission) 0 p_parts

-- The first pattern that matches.
unfoldable pub any_matches : List String → String → Option String
any_matches patterns permission = find_first (λ p. matches p permission) patterns

abbrev insert_sorted : String → List String → List String
insert_sorted x [] = x ∷ []
insert_sorted x (y ∷ ys) = if text_leb x y then x ∷ y ∷ ys else y ∷ insert_sorted x ys

-- `sorted`
unfoldable pub sorted : List String → List String
sorted [] = []
sorted (x ∷ xs) = insert_sorted x (sorted xs)

-- `allow` and `deny` are sets, `sources` the names of the roles that contributed.
pub record PermissionSet : Type 0 where
  pub allow : List String
  pub deny : List String
  pub sources : List String

abbrev pub no_permissions : PermissionSet
no_permissions = record { allow = []; deny = []; sources = [] }

unfoldable pub allowed_by : PermissionSet → String → Option String
allowed_by s permission = any_matches (sorted s.allow) permission

unfoldable pub denied_by : PermissionSet → String → Option String
denied_by s permission = any_matches (sorted s.deny) permission

unfoldable pub permits : PermissionSet → String → Bool
permits s permission = is_none (denied_by s permission) && is_some (allowed_by s permission)

pub merge : PermissionSet → PermissionSet → PermissionSet
merge s t = record {
  allow = set_union s.allow t.allow;
  deny = set_union s.deny t.deny;
  sources = distinct (s.sources ++ t.sources);
}

unfoldable pub intersect : PermissionSet → PermissionSet → PermissionSet
intersect s t = record {
  allow = set_inter s.allow t.allow;
  deny = set_union s.deny t.deny;
  sources = distinct (s.sources ++ t.sources);
}

-- The permissions of a concrete catalog that the patterns give.
pub resolved : PermissionSet → List String → List String
resolved s universe = select (permits s) universe

-- `bool(s)`: some pattern is there
unfoldable pub is_nonempty : PermissionSet → Bool
is_nonempty s = not (is_empty s.allow) || not (is_empty s.deny)

unfoldable pub effective_permits : String → List PermissionSet → Bool
effective_permits permission = all (λ s. permits s permission)
