-- ===== src/Identity/ApiKeys.antt =====
-- agentid/identity/api_keys.py: keys of machine callers, `<prefix><key_id>.<secret>`. Hashing a secret
-- and checking one against a hash are given.
use agentid_mcp_gateway.Prelude.{
  ℕ, ◌+◌, String, Bool, true, false, not, ◌||◌, Option, none, some, List, [], ◌∷◌, ◌++◌, ◌==◌,
  ◌+++◌, ◌≡◌, ◌≢◌, refl, arith, is_none, find_first, update_where, select, partition,
  partition-append, has_char, truthy, strip_prefix, strip_prefix-append, if◌then◌else◌, eqb,
}
use Prim.Native.String.{◌∷◌ as cons}
use text.Mathlib.TextLemmas.{nil-append, cons-append}
use agentid_mcp_gateway.Config.{Settings}
use agentid_mcp_gateway.Context.{text_of}
use agentid_mcp_gateway.Errors.{Result, ok, raise, error, ErrorKind, ◌>>=◌, ◌>>◌, raise_if}
use agentid_mcp_gateway.Models.{Db, IdentityType, ApiKey, api_key_is_active}
use agentid_mcp_gateway.Identity.Sessions.{seconds}

abbrev pub is_user : IdentityType → Bool
is_user IdentityType.user = true
is_user _ = false

-- `utcnow() + ttl if ttl_seconds else None`
abbrev key_expiry : ℕ → Option ℕ → Option ℕ
key_expiry now none = none
key_expiry now (some t) = if eqb t 0 then none else some (now + seconds t)

unfoldable pub plaintext : Settings → String → String → String
plaintext s key_id secret = s.api_key_prefix +++ key_id +++ "." +++ secret

-- The row that is stored, the plaintext, which is not, and the new state.
unfoldable pub issue_api_key :
    Settings
    → (String → String)
    → ℕ
    → String
    → String
    → String
    → String
    → IdentityType
    → String
    → Option ℕ
    → Db
    → Result ((ApiKey × String) × Db)
issue_api_key s hash_secret now fresh key_id secret name owner_type owner_id ttl_seconds db = do
  raise_if (is_user owner_type) ErrorKind.authentication_error "api_key_persona_violation"
  let key : ApiKey = record {
    id = fresh;
    name = name;
    key_id = key_id;
    secret_hash = hash_secret secret;
    owner_type = owner_type;
    owner_id = owner_id;
    expires_at = key_expiry now ttl_seconds;
    revoked_at = none;
    last_used_at = none;
  }
  ok ((key, plaintext s key_id secret), record db { api_keys = db.api_keys ++ key ∷ [] })

abbrev pub split_key : Option String → Result (String × String)
split_key none = raise (error ErrorKind.authentication_error "invalid_api_key")
split_key (some body) =
    let (key_id, secret) = partition b'.' body in
    if key_id == "" || secret == ""
    then raise (error ErrorKind.authentication_error "invalid_api_key")
    else ok (key_id, secret)

unfoldable pub parse_api_key : Settings → String → Result (String × String)
parse_api_key s raw = split_key (strip_prefix s.api_key_prefix raw)

abbrev pub find_key : String → List ApiKey → Option ApiKey
find_key key_id = find_first (λ (k : ApiKey). k.key_id == key_id)

abbrev pub used : ℕ → ApiKey → ApiKey
used now k = record k { last_used_at = some now }

-- the checks on the row that the key id leads to
abbrev pub check_key : (String → String → Bool) → ℕ → String → Option ApiKey → Result ApiKey
check_key verify now secret none = raise (error ErrorKind.authentication_error "invalid_api_key")
check_key verify now secret (some k) = do
  raise_if (not (verify secret k.secret_hash)) ErrorKind.authentication_error "invalid_api_key"
  raise_if (not (api_key_is_active now k)) ErrorKind.authentication_error "api_key_inactive"
  ok k

unfoldable pub verify_api_key :
    Settings → (String → String → Bool) → ℕ → String → Db → Result (ApiKey × Db)
verify_api_key s verify now raw db = do
  parsed ← parse_api_key s raw
  k ← check_key verify now parsed.1 (find_key parsed.0 db.api_keys)
  ok (
    used now k,
    record db {
      api_keys = update_where (λ (x : ApiKey). x.key_id == parsed.0) (used now) db.api_keys;
    },
  )

-- A key that is revoked already keeps the time of its revocation.
unfoldable pub revoke_api_key : ℕ → String → Db → Db
revoke_api_key now api_key_id db = record db {
  api_keys =
      update_where (λ (k : ApiKey). k.id == api_key_id)
        (λ k. if is_none k.revoked_at then record k { revoked_at = some now } else k) db.api_keys;
}

pub list_api_keys : Db → Option String → List ApiKey
list_api_keys db owner_id =
    if truthy owner_id
    then select (λ (k : ApiKey). k.owner_id == text_of owner_id) db.api_keys
    else db.api_keys

partition_dot : (a b : String) → has_char b'.' a ≡ false → partition b'.' (a +++ "." +++ b) ≡ (a, b)
partition_dot a b h = rw (dot-append b) (partition-append "." a b h)
  where
    dot-append : (t : String) → "." +++ t ≡ cons "." t
    dot-append t = rw (cons-append, nil-append) refl

-- A plaintext that was issued is read back as its key id and secret, where the key id has no dot, as
-- hexadecimal ids have none, and neither is empty.
pub parse_api_key-plaintext :
    (s : Settings) (key_id secret : String)
    → has_char b'.' key_id ≡ false
    → (key_id == "") ≡ false
    → (secret == "") ≡ false
    → parse_api_key s (plaintext s key_id secret) ≡ ok (key_id, secret)
unfolding parse_api_key plaintext
parse_api_key-plaintext s key_id secret no_dot id_given secret_given =
    rw
      (
        strip_prefix-append s.api_key_prefix (key_id +++ "." +++ secret),
        partition_dot key_id secret no_dot,
        id_given,
        secret_given,
      )
      refl

-- No key is ever issued to a user.
pub issue_api_key-machine :
    (s : Settings) (hash_secret : String → String) (now : ℕ)
    (fresh key_id secret name owner_id : String) (owner_type : IdentityType) (ttl : Option ℕ)
    (db : Db) {k : ApiKey} {text : String} {db' : Db}
    → issue_api_key s hash_secret now fresh key_id secret name owner_type owner_id ttl db
      ≡ ok ((k, text), db')
    → (owner_type ≢ IdentityType.user)
      × (k.owner_type ≡ owner_type)
      × (text ≡ plaintext s key_id secret)
unfolding issue_api_key
issue_api_key-machine s hash_secret now fresh key_id secret name owner_id owner_type ttl db h =
    (λ e. ground arith, ground arith, ground arith)
