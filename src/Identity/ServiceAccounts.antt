-- ===== src/Identity/ServiceAccounts.antt =====
-- agentid/identity/service_accounts.py: service accounts, and the grants by which a user or an
-- agent may execute through one. One row for a triple, as for the grants of agents.
use agentid_mcp_gateway.Prelude.{
  ℕ, String, Bool, true, false, ◌&&◌, Option, none, some, List, [], ◌∷◌, ◌++◌, ◌==◌, ◌≡◌, refl,
  arith, eq_iff, map, is_some, is_none, contains, find_first, select, update_where, if◌then◌else◌,
  find_first-update_where, find_first-passes, written,
}
use agentid_mcp_gateway.Errors.{Result, ok, raise, error, ErrorKind, ◌>>=◌, ◌>>◌, raise_if}
use agentid_mcp_gateway.Models.{Db, IdentityType, ServiceAccount, ServiceAccountGrant}
use agentid_mcp_gateway.Identity.Users.{resolve_some_roles}

abbrev pub type_eq : IdentityType → IdentityType → Bool
type_eq IdentityType.user IdentityType.user = true
type_eq IdentityType.agent IdentityType.agent = true
type_eq IdentityType.service_account IdentityType.service_account = true
type_eq IdentityType.gateway IdentityType.gateway = true
type_eq _ _ = false

unfoldable pub get_service_account : Db → String → Option ServiceAccount
get_service_account db sa_id =
    find_first (λ (s : ServiceAccount). s.id == sa_id) db.service_accounts

unfoldable pub get_service_account_by_name : Db → String → Option ServiceAccount
get_service_account_by_name db name =
    find_first (λ (s : ServiceAccount). s.name == name) db.service_accounts

unfoldable pub resolve_service_account : Db → String → Option ServiceAccount
resolve_service_account db identifier = elim (get_service_account db identifier) [
  | some s ↦ some s
  | none ↦ get_service_account_by_name db identifier
]

unfoldable pub require_service_account : Db → String → Result ServiceAccount
require_service_account db identifier = elim (resolve_service_account db identifier) [
  | some s ↦ ok s
  | none ↦ raise (error ErrorKind.not_found_error "unknown_service_account")
]

unfoldable pub create_service_account :
    String → String → Option String → List String → Db → Result (ServiceAccount × Db)
create_service_account fresh name description roles db = do
  raise_if (is_some (get_service_account_by_name db name)) ErrorKind.conflict_error "sa_exists"
  ids ← resolve_some_roles db roles
  let sa : ServiceAccount = record {
    id = fresh;
    name = name;
    description = description;
    is_active = true;
    roles = ids;
  }
  ok (sa, record db { service_accounts = db.service_accounts ++ sa ∷ [] })

abbrev is_grant : IdentityType → String → String → ServiceAccountGrant → Bool
is_grant grantee_type grantee_id sa_id g =
    type_eq g.grantee_type grantee_type
    && (g.grantee_id == grantee_id && g.service_account_id == sa_id)

-- `_find_grant`
find_grant : IdentityType → String → String → List ServiceAccountGrant → Option ServiceAccountGrant
find_grant grantee_type grantee_id sa_id = find_first (is_grant grantee_type grantee_id sa_id)

abbrev renewed : ServiceAccountGrant → ServiceAccountGrant
renewed g = record g { revoked_at = none }

grant_rows : IdentityType → String → String → List ServiceAccountGrant → List ServiceAccountGrant
unfolding find_grant
grant_rows grantee_type grantee_id sa_id gs =
    if is_some (find_grant grantee_type grantee_id sa_id gs)
    then update_where (is_grant grantee_type grantee_id sa_id) renewed gs
    else gs
      ++ record {
        grantee_type = grantee_type;
        grantee_id = grantee_id;
        service_account_id = sa_id;
        revoked_at = none;
      }
        ∷ []

unfoldable pub grant_service_account : IdentityType → String → String → Db → Db
unfolding grant_rows
grant_service_account grantee_type grantee_id sa_id db = record db {
  service_account_grants = grant_rows grantee_type grantee_id sa_id db.service_account_grants;
}

unfoldable pub revoke_service_account : ℕ → IdentityType → String → String → Db → Db
revoke_service_account now grantee_type grantee_id sa_id db = record db {
  service_account_grants =
      update_where (is_grant grantee_type grantee_id sa_id)
        (λ g. record g { revoked_at = some now }) db.service_account_grants;
}

abbrev unrevoked : Option ServiceAccountGrant → Bool
unrevoked none = false
unrevoked (some g) = is_none g.revoked_at

unfoldable pub may_use_service_account : Db → IdentityType → String → String → Bool
unfolding find_grant
may_use_service_account db grantee_type grantee_id sa_id =
    unrevoked (find_grant grantee_type grantee_id sa_id db.service_account_grants)

pub list_grants_for : Db → IdentityType → String → List ServiceAccount
list_grants_for db grantee_type grantee_id =
    let rows =
      select
        (λ (g : ServiceAccountGrant).
          type_eq g.grantee_type grantee_type
          && (g.grantee_id == grantee_id && is_none g.revoked_at))
        db.service_account_grants in
    let ids = map (λ (g : ServiceAccountGrant). g.service_account_id) rows in
    select (λ (s : ServiceAccount). contains s.id ids) db.service_accounts

module _ (t t' : IdentityType) (u a u' a' : String) where
  abbrev same_triple : Bool
  same_triple = type_eq t t' && (u == u' && a == a')

  -- Of a row of one triple: it is of the other exactly when the triples are the same.
  same_row : (g : ServiceAccountGrant) → is_grant t' u' a' g ≡ true → is_grant t u a g ≡ same_triple
  same_row g h = ground (
    arith,
    eq_iff g.grantee_id u,
    eq_iff g.grantee_id u',
    eq_iff g.service_account_id a,
    eq_iff g.service_account_id a',
    eq_iff u u',
    eq_iff a a',
    type_row g.grantee_type,
  )
    where
      type_row : (x : IdentityType) → type_eq x t' ≡ true → type_eq x t ≡ type_eq t t'
      type_row x e = ground arith

  revoked_row :
      (now : ℕ) (gs : List ServiceAccountGrant) (o : Option ServiceAccountGrant)
      → find_grant t' u' a' gs ≡ o
      → unrevoked (written (is_grant t u a) (λ g. record g { revoked_at = some now }) o)
        ≡ (if same_triple then false else unrevoked o)
  unfolding find_grant
  revoked_row now gs none e = ground arith
  revoked_row now gs (some g) e =
      rw (same_row g (find_first-passes (is_grant t' u' a') gs e)) (ground arith)

  -- A revocation takes the use of an account from exactly its grantee.
  pub may_use_service_account-revoke :
      (now : ℕ) (db : Db)
      → may_use_service_account (revoke_service_account now t u a db) t' u' a'
        ≡ (if same_triple then false else may_use_service_account db t' u' a')
  unfolding may_use_service_account revoke_service_account
  may_use_service_account-revoke now db =
      rw
        (find_first-update_where (is_grant t u a) (is_grant t' u' a')
          (λ g. record g { revoked_at = some now }) (λ x. refl) db.service_account_grants)
        (revoked_row now db.service_account_grants (find_grant t' u' a' db.service_account_grants)
          refl)
