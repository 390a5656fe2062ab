-- ===== src/Authorization/Permissions/Sets.antt =====
-- What a permission set permits, as tests that the order of its patterns does not show in, and
-- the laws of union and intersection.
use agentid_mcp_gateway.Prelude.{
  String, Bool, true, not, ◌&&◌, ◌||◌, List, [], ◌∷◌, ◌≡◌, refl, arith, any, find_first, is_some,
  any-set_union, any-set_inter,
}
use agentid_mcp_gateway.Authorization.Permissions.{
  PermissionSet, matches, any_matches, insert_sorted, sorted, permits, allowed_by, denied_by, merge,
  intersect, effective_permits,
}

-- some pattern of the list matches
abbrev pub some_match : List String → String → Bool
some_match patterns q = any (λ p. matches p q) patterns

module _ (p : String → Bool) where
  any-insert_sorted :
      (x : String) (xs : List String) → any p (insert_sorted x xs) ≡ (p x || any p xs)
  any-insert_sorted x [] = refl
  any-insert_sorted x (y ∷ ys) = ground (arith, any-insert_sorted x ys)

  -- Sorting a set changes no existential test.
  any-sorted : (xs : List String) → any p (sorted xs) ≡ any p xs
  unfolding sorted
  any-sorted [] = refl
  any-sorted (x ∷ xs) = ground (arith, any-insert_sorted x (sorted xs), any-sorted xs)

  is_some-find_first : (xs : List String) → is_some (find_first p xs) ≡ any p xs
  is_some-find_first [] = refl
  is_some-find_first (x ∷ xs) = ground (arith, is_some-find_first xs)

module _ (s : PermissionSet) (q : String) where
  pub is_some-allowed_by : is_some (allowed_by s q) ≡ some_match s.allow q
  unfolding allowed_by any_matches
  is_some-allowed_by = ground (
    arith,
    is_some-find_first (λ p. matches p q) (sorted s.allow),
    any-sorted (λ p. matches p q) s.allow,
  )

  pub is_some-denied_by : is_some (denied_by s q) ≡ some_match s.deny q
  unfolding denied_by any_matches
  is_some-denied_by = ground (
    arith,
    is_some-find_first (λ p. matches p q) (sorted s.deny),
    any-sorted (λ p. matches p q) s.deny,
  )

  -- A set permits what no deny pattern and some allow pattern matches: deny wins, however
  -- specific the patterns are and in whatever order they were given.
  pub permits-eq : permits s q ≡ (not (some_match s.deny q) && some_match s.allow q)
  unfolding permits
  permits-eq = ground (arith, is_some-allowed_by, is_some-denied_by)

-- Several roles add up: their union permits what some role allows and none denies.
pub permits-merge :
    (s t : PermissionSet) (q : String)
    → permits (merge s t) q ≡ (
        not (some_match s.deny q || some_match t.deny q)
        && (some_match s.allow q || some_match t.allow q))
unfolding merge
permits-merge s t q = rw (permits-eq (merge s t) q, any-set_union, any-set_union) refl

-- What an intersection permits, both of its sides permit.
pub intersect_sound :
    (s t : PermissionSet) (q : String)
    → permits (intersect s t) q ≡ true
    → effective_permits q (s ∷ t ∷ []) ≡ true
unfolding intersect effective_permits
intersect_sound s t q h = ground (
  arith,
  permits-eq s q,
  permits-eq t q,
  permits-eq (intersect s t) q,
  any-set_union (λ p. matches p q) s.deny t.deny,
  any-set_inter (λ p. matches p q) s.allow t.allow,
)

-- Either side may veto: a set that is added to a chain never widens it.
pub effective_permits-cons :
    (s : PermissionSet) (q : String) (ss : List PermissionSet)
    → effective_permits q (s ∷ ss) ≡ true
    → (permits s q ≡ true) × (effective_permits q ss ≡ true)
unfolding effective_permits
effective_permits-cons s q ss h = ground arith
