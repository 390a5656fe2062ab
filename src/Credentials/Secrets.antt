-- ===== src/Credentials/Secrets.antt =====
-- agentid/credentials/vault.py, oauth.py, api_keys.py and refresh.py: a secret, how it is read from
-- a stored payload and written to one, and how one that expired is replaced.
use agentid_mcp_gateway.Prelude.{
  ℕ, ◌*◌, String, true, false, Option, none, some, List, [], ◌∷◌, ◌==◌, ◌+++◌, ◌||◌, if◌then◌else◌,
}
use agentid_mcp_gateway.Errors.{Result, ok, raise, error, python_error, ErrorKind, ◌>>=◌}
use agentid_mcp_gateway.Json.{
  Value, Fields, null, bool, num, str, end, field, get, get_truthy, get_or, put, update_given,
}

-- What is used of the libraries: the cipher of the vault, `str` on values that are no texts, and the
-- ISO form of times.
pub record Library : Type 0 where
  pub encrypt : String → Fields → String
  pub decrypt : String → String → Option Fields
  pub to_text : Value → String
  pub from_iso : String → Option ℕ
  pub to_iso : ℕ → String

pub data SecretKind : Type 0 where
  oauth api_key : SecretKind

pub record SecretMaterial : Type 0 where
  pub kind : SecretKind
  pub value : String
  pub expires_at : Option ℕ
  pub refresh_token : Option Value
  pub extra : Fields

-- `SecretMaterial.as_header`
abbrev header_of : SecretKind → String → String × String
header_of SecretKind.oauth value = ("X-Downstream-Authorization", "Bearer " +++ value)
header_of SecretKind.api_key value = ("X-Downstream-Api-Key", value)

unfoldable pub as_header : SecretMaterial → String × String
as_header s = header_of s.kind s.value

module _ (lib : Library) where
  -- `LocalVault.open` under a key
  unfoldable pub open_vault : String → String → Result Fields
  open_vault key ciphertext = elim (lib.decrypt key ciphertext) [
    | none ↦ raise (error ErrorKind.credential_error "credential_undecryptable")
    | some fs ↦ ok fs
  ]

  unfoldable pub seal_vault : String → Fields → String
  seal_vault key payload = lib.encrypt key payload

  -- `str(v)`
  abbrev pub text_value : Value → String
  text_value (str s) = s
  text_value v = lib.to_text v

  abbrev parsed_time : Option ℕ → Result (Option ℕ)
  parsed_time none = raise (python_error "ValueError")
  parsed_time (some t) = ok (some t)

  -- the expiry in a payload: an ISO text, or a number of seconds; a truth value is a number
  unfoldable pub expiry_of : Option Value → Result (Option ℕ)
  expiry_of (some (str s)) = parsed_time (lib.from_iso s)
  expiry_of (some (num n)) = ok (some (n * 1000000))
  expiry_of (some (bool true)) = ok (some 1000000)
  expiry_of (some (bool false)) = ok (some 0)
  expiry_of _ = ok none

  -- `payload.get(a) or payload.get(b)`
  abbrev first_truthy : Option Value → Option Value → Option Value
  first_truthy v w = if get_truthy v then v else w

  -- the `KeyError` of a builder, as `_materialise` re-raises it
  abbrev pub malformed {ℓ} : {A : Type ℓ} → Result A
  malformed = raise (error ErrorKind.credential_error "malformed_credential")

  -- `oauth.build_secret`
  unfoldable pub oauth_secret : Fields → Result SecretMaterial
  oauth_secret payload =
      let token = first_truthy (get "access_token" payload) (get "value" payload) in
      if get_truthy token
      then (expiry_of (get "expires_at" payload) >>= λ expires. ok record {
        kind = SecretKind.oauth;
        value = text_value (get_or null token);
        expires_at = expires;
        refresh_token = get "refresh_token" payload;
        extra =
            field "token_type" (get_or (str "Bearer") (get "token_type" payload))
              (field "scope" (get_or null (get "scope" payload)) end);
      })
      else malformed

  -- `api_keys.build_secret`
  abbrev without_key : Fields → Fields
  without_key end = end
  without_key (field k v fs) =
      let rest = without_key fs in if k == "api_key" || k == "value" then rest else field k v rest

  unfoldable pub api_key_secret : Fields → Result SecretMaterial
  api_key_secret payload =
      let value = first_truthy (get "api_key" payload) (get "value" payload) in
      if get_truthy value
      then ok record {
        kind = SecretKind.api_key;
        value = text_value (get_or null value);
        expires_at = none;
        refresh_token = none;
        extra = without_key payload;
      }
      else malformed

  -- the start of `payload_from_secret`, by the kind of the secret
  abbrev kind_payload : SecretKind → String → Option Value → Fields
  kind_payload SecretKind.api_key value refresh = field "api_key" (str value) end
  kind_payload SecretKind.oauth value refresh =
      let payload = field "access_token" (str value) (field "token_type" (str "Bearer") end) in
      if get_truthy refresh then put "refresh_token" (get_or null refresh) payload else payload

  abbrev put_expiry : Option ℕ → Fields → Fields
  put_expiry none payload = payload
  put_expiry (some t) payload = put "expires_at" (str (lib.to_iso t)) payload

  unfoldable pub payload_from_secret : SecretMaterial → Fields
  payload_from_secret s =
      update_given (put_expiry s.expires_at (kind_payload s.kind s.value s.refresh_token)) s.extra

-- A provider of refreshed secrets, given the name of the server.
abbrev pub Provider : Type 0
Provider = String → SecretMaterial → Result SecretMaterial

-- `NullRefreshProvider`
unfoldable pub null_provider : Provider
null_provider server_name secret = raise (error ErrorKind.credential_error "credential_expired")

-- `RefreshRegistry`
pub record RefreshRegistry : Type 0 where
  pub fallback : Provider
  pub providers : List (String × Provider)

abbrev find_provider : String → Provider → List (String × Provider) → Provider
find_provider name fallback [] = fallback
find_provider name fallback ((n, p) ∷ ps) = if n == name then p else find_provider name fallback ps

unfoldable pub refresh : RefreshRegistry → String → SecretMaterial → Result SecretMaterial
refresh r server_name secret = find_provider server_name r.fallback r.providers server_name secret

pub register : String → Provider → RefreshRegistry → RefreshRegistry
register name p r = record r { providers = (name, p) ∷ r.providers }
