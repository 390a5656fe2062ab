-- ===== src/Identity/Users.antt =====
-- agentid/identity/users.py. `verify` is the check of a password against its stored hash, and
-- `hash_password` makes one.
use agentid_mcp_gateway.Prelude.{
  String, Bool, true, not, Option, none, some, List, [], ◌∷◌, ◌++◌, ◌==◌, map, is_empty, contains,
  find_first, select, all, update_where, strip, lower, is_some, if◌then◌else◌, ◌≡◌, arith,
}
use agentid_mcp_gateway.Errors.{Result, ok, raise, error, ErrorKind, ◌>>=◌, ◌>>◌, raise_if}
use agentid_mcp_gateway.Models.{Db, User, Role}

unfoldable pub get_user : Db → String → Option User
get_user db user_id = find_first (λ (u : User). u.id == user_id) db.users

unfoldable pub require_user : Db → String → Result User
unfolding get_user
require_user db user_id = elim (get_user db user_id) [
  | none ↦ raise (error ErrorKind.not_found_error "unknown_user")
  | some u ↦ ok u
]

unfoldable pub normal_email : String → String
normal_email email = lower (strip email)

unfoldable pub get_user_by_email : Db → String → Option User
get_user_by_email db email = find_first (λ (u : User). u.email == normal_email email) db.users

-- The ids of the roles of the given names, or the error that a name is not a role's.
unfoldable pub resolve_roles : Db → List String → Result (List String)
resolve_roles db names =
    let found = select (λ (r : Role). contains r.name names) db.roles in
    let found_names = map (λ (r : Role). r.name) found in
    if all (λ n. contains n found_names) names
    then ok (map (λ (r : Role). r.id) found)
    else raise (error ErrorKind.not_found_error "unknown_role")

-- `if roles:` skips an empty list.
unfoldable pub resolve_some_roles : Db → List String → Result (List String)
resolve_some_roles db names = if is_empty names then ok [] else resolve_roles db names

-- `fresh` is the id that a new row gets.
unfoldable pub create_user :
    (String → String)
    → String
    → String
    → Option String
    → Option String
    → List String
    → Db
    → Result (User × Db)
create_user hash_password fresh email password display_name roles db = do
  raise_if (is_some (get_user_by_email db email)) ErrorKind.conflict_error "user_exists"
  ids ← resolve_some_roles db roles
  let user : User = record {
    id = fresh;
    email = normal_email email;
    display_name = display_name;
    password_hash = elim password [
      | none ↦ none
      | some p ↦ if p == "" then none else some (hash_password p)
    ];
    is_active = true;
    roles = ids;
  }
  ok (user, record db { users = db.users ++ user ∷ [] })

check_login : Bool → Option User → Result User
check_login verified none = raise (error ErrorKind.authentication_error "invalid_credentials")
check_login verified (some user) = do
  raise_if (not verified) ErrorKind.authentication_error "invalid_credentials"
  raise_if (not user.is_active) ErrorKind.authentication_error "user_disabled"
  ok user

abbrev hash_of : Option User → Option String
hash_of none = none
hash_of (some u) = u.password_hash

-- An unknown user and a wrong password raise the same error.
unfoldable pub authenticate_user :
    (String → Option String → Bool) → Db → String → String → Result User
unfolding check_login
authenticate_user verify db email password =
    let found = get_user_by_email db email in check_login (verify password (hash_of found)) found

pub set_password : (String → String) → User → String → Db → User × Db
set_password hash_password user password db =
    let user' : User = record user { password_hash = some (hash_password password) } in
    (
      user',
      record db { users = update_where (λ (u : User). u.id == user.id) (λ u. user') db.users },
    )

unfoldable pub assign_roles : User → List String → Db → Result (User × Db)
assign_roles user role_names db = do
  ids ← resolve_roles db role_names
  let user' : User = record user { roles = ids }
  ok (
    user',
    record db { users = update_where (λ (u : User). u.id == user.id) (λ u. user') db.users },
  )

check_login_sound :
    (verify : String → Option String → Bool) (password : String) (found : Option User) {u : User}
    → check_login (verify password (hash_of found)) found ≡ ok u
    → (found ≡ some u) × (verify password u.password_hash ≡ true) × (u.is_active ≡ true)
unfolding check_login
check_login_sound verify password none h = ground arith
check_login_sound verify password (some user) h = ground arith

-- A login succeeds only for an active user whose stored hash the password verifies against.
pub authenticate_user_sound :
    (verify : String → Option String → Bool) (db : Db) (email password : String) {u : User}
    → authenticate_user verify db email password ≡ ok u
    → (get_user_by_email db email ≡ some u)
      × (verify password u.password_hash ≡ true)
      × (u.is_active ≡ true)
unfolding authenticate_user
authenticate_user_sound verify db email password h =
    check_login_sound verify password (get_user_by_email db email) h
