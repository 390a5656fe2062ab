-- ===== src/Credentials/Manager.antt =====
-- agentid/credentials/manager.py and the downstream half of token_exchange.py: the headers that one
-- call carries.
pub mod Choice
pub mod Trail
pub mod Ownership
use agentid_mcp_gateway.Prelude.{
  ℕ, String, Bool, true, false, ◌&&◌, Option, none, some, List, [], ◌∷◌, ◌++◌, ◌==◌, ◌+++◌, is_none,
  leb, find_first, update_where, select, truthy, ◌or_else◌, if◌then◌else◌, not, is_some,
}
use agentid_mcp_gateway.Config.{Settings, vault_key}
use agentid_mcp_gateway.Context.{RequestContext, text_of}
use agentid_mcp_gateway.Errors.{Result, ok, raise, error, ErrorKind}
use agentid_mcp_gateway.Errors.Exec.{Exec, ◌>>=◌, ◌>>◌, pure, throw, reading, gets, modify}
use agentid_mcp_gateway.Json.{
  Fields, Value, field, end, str, text_or_null, get_truthy, get_or, null,
}
use agentid_mcp_gateway.Jwt.{Jwt, Payload}
use agentid_mcp_gateway.Models.{Db, Credential, CredentialType, IdentityType, McpServer}
use agentid_mcp_gateway.Identity.ServiceAccounts.{type_eq}
use agentid_mcp_gateway.Identity.Tokens.{downstream_payload}
use agentid_mcp_gateway.Credentials.Cache.{TokenCache, Key, cache_get, cache_set, invalidate, clear}
use agentid_mcp_gateway.Credentials.Secrets.{
  Library, SecretMaterial, as_header, open_vault, seal_vault, oauth_secret, api_key_secret,
  payload_from_secret, RefreshRegistry, refresh,
}

pub record ResolvedCredential : Type 0 where
  pub headers : List (String × String)
  pub source : String
  pub credential_id : Option String
  pub expires_at : Option ℕ

-- `ResolvedCredential.audit_fields`
unfoldable pub audit_fields : ResolvedCredential → Fields
audit_fields r =
    field "credential_source" (str r.source)
      (field "credential_id" (text_or_null r.credential_id) end)

-- The collaborators of the manager, and what it keeps: the database of the call and its own cache.
pub record Manager : Type 0 where
  pub settings : Settings
  pub library : Library
  pub jwt : Jwt
  pub refresh_registry : RefreshRegistry

pub record Holdings : Type 0 where
  pub db : Db
  pub cache : TokenCache SecretMaterial

abbrev pub type_value : CredentialType → String
type_value CredentialType.nothing = "none"
type_value CredentialType.oauth = "oauth"
type_value CredentialType.api_key = "api_key"
type_value CredentialType.service_account = "service_account"

abbrev pub owner_value : IdentityType → String
owner_value IdentityType.user = "user"
owner_value IdentityType.agent = "agent"
owner_value IdentityType.service_account = "service_account"
owner_value IdentityType.gateway = "gateway"

abbrev candidate : IdentityType → Option String → List (IdentityType × String)
candidate t i = if truthy i then (t, text_of i) ∷ [] else []

-- the owners that are tried, the most specific first
unfoldable pub candidates : RequestContext → McpServer → List (IdentityType × String)
candidates ctx server =
    candidate IdentityType.service_account ctx.service_account_id
    ++ candidate IdentityType.user ctx.user_id
    ++ candidate IdentityType.agent ctx.agent_id
    ++ (IdentityType.gateway, server.id) ∷ []

abbrev pub owned_by : String → IdentityType → String → Credential → Bool
owned_by server_id t i c = c.server_id == server_id && type_eq c.owner_type t && c.owner_id == i

unfoldable pub first_owned :
    String → List Credential → List (IdentityType × String) → Option Credential
first_owned server_id cs [] = none
first_owned server_id cs ((t, i) ∷ owners) =
    let rest = first_owned server_id cs owners in
    elim (find_first (owned_by server_id t i) cs) [ none ↦ rest | some c ↦ some c ]

-- `_find_credential`
unfoldable pub find_credential : Db → RequestContext → McpServer → Option Credential
find_credential db ctx server = first_owned server.id db.credentials (candidates ctx server)

abbrev pub cache_key : Credential → Key
cache_key c = (c.id, c.updated_at)

-- `_BUILDERS`
abbrev pub builder : Library → CredentialType → Fields → Result SecretMaterial
builder lib CredentialType.oauth payload = oauth_secret lib payload
builder lib CredentialType.api_key payload = api_key_secret lib payload
builder lib CredentialType.service_account payload = api_key_secret lib payload
builder lib CredentialType.nothing payload =
    raise (error ErrorKind.credential_error "unsupported_credential_type")

abbrev is_past : ℕ → Option ℕ → Bool
is_past now none = false
is_past now (some t) = leb t now

-- `_is_expired`: the expiry of the secret, or else that of the row
abbrev pub is_expired : ℕ → SecretMaterial → Credential → Bool
is_expired now secret row =
    is_past now (elim secret.expires_at [ some t ↦ some t | none ↦ row.expires_at ])

-- the row that `_persist` leaves; a write stamps the row with its time
abbrev pub persisted : Manager → ℕ → SecretMaterial → Credential → Credential
persisted m now secret c =
    let key = vault_key m.settings in
    let sealed : Credential = record c {
      ciphertext = seal_vault m.library key (payload_from_secret m.library secret);
      expires_at = secret.expires_at;
      updated_at = now;
    } in
    if get_truthy secret.refresh_token
    then record sealed {
      refresh_ciphertext =
          some (
            seal_vault m.library key
              (field "refresh_token" (get_or null secret.refresh_token) end));
    }
    else sealed

abbrev pub put_row : Credential → Holdings → Holdings
put_row c h = record h {
  db = record h.db {
    credentials = update_where (λ (x : Credential). x.id == c.id) (λ x. c) h.db.credentials;
  };
}

-- `self.cache.get(key)`
abbrev pub cached : ℕ → Key → Exec Holdings (Option SecretMaterial)
cached now key h = let (o, c) = cache_get now key h.cache in (ok o, record h { cache = c })

abbrev pub remember : ℕ → Key → SecretMaterial → Exec Holdings SecretMaterial
remember now key secret h =
    (ok secret, record h { cache = cache_set now key secret secret.expires_at h.cache })

-- a secret that expired: its replacement is stored and the cached one dropped
abbrev pub refreshed :
    Manager → ℕ → McpServer → Credential → SecretMaterial → Exec Holdings SecretMaterial
refreshed m now server row old =
    reading (λ h. refresh m.refresh_registry server.name old) >>= λ secret.
    let row' = persisted m now secret row in
    modify (put_row row')
    >> (modify (λ h. record h { cache = invalidate (cache_key row) h.cache })
        >> remember now (cache_key row') secret)

abbrev pub opened : Manager → ℕ → McpServer → Credential → Exec Holdings SecretMaterial
opened m now server row = do
  payload ← reading (λ h. open_vault m.library (vault_key m.settings) row.ciphertext)
  secret ← reading (λ h. builder m.library row.credential_type payload)
  (if is_expired now secret row
      then refreshed m now server row secret
      else remember now (cache_key row) secret)

-- `_materialise`
unfoldable pub materialise : Manager → ℕ → McpServer → Credential → Exec Holdings SecretMaterial
materialise m now server row = cached now (cache_key row) >>= λ o. elim o [
  | some secret ↦ pure secret
  | none ↦ opened m now server row
]

-- `exchange_for_downstream`: the token of the call, signed
unfoldable pub exchange_for_downstream :
    Manager → ℕ → String → RequestContext → String → Option String → Option String → Result String
exchange_for_downstream m now jti ctx server_name audience tool =
    elim (downstream_payload m.settings now jti server_name audience ctx.user_id ctx.agent_id
      ctx.service_account_id ctx.persona (tool or_else ctx.tool) (some ctx.request_id) ctx.scopes
      none) [ raise e ↦ raise e | ok p ↦ ok (m.jwt.encode p m.settings.secret_key) ]

abbrev pub gateway_headers : RequestContext → String → List (String × String)
gateway_headers ctx token =
    ("Authorization", "Bearer " +++ token) ∷ ("X-AgentID-Request-Id", ctx.request_id) ∷ []

abbrev pub is_nothing : CredentialType → Bool
is_nothing CredentialType.nothing = true
is_nothing _ = false

abbrev with_secret :
    McpServer → List (String × String) → Credential → SecretMaterial → ResolvedCredential
with_secret server headers row secret = record {
  headers = headers ++ as_header secret ∷ [];
  source = type_value server.credential_type +++ ":" +++ owner_value row.owner_type;
  credential_id = some row.id;
  expires_at = secret.expires_at;
}

abbrev pub stored_secret :
    Manager
    → ℕ
    → RequestContext
    → McpServer
    → List (String × String)
    → Exec Holdings ResolvedCredential
stored_secret m now ctx server headers =
    gets (λ (h : Holdings). find_credential h.db ctx server) >>= λ o. elim o [
      | none ↦ throw ErrorKind.credential_error "credential_not_found"
      | some row ↦
          materialise m now server row >>= λ secret. pure (with_secret server headers row secret)
    ]

-- `resolve`
unfoldable pub resolve :
    Manager → ℕ → String → RequestContext → McpServer → Exec Holdings ResolvedCredential
resolve m now jti ctx server =
    reading (λ h. exchange_for_downstream m now jti ctx server.name server.audience ctx.tool)
    >>= λ token.
        if is_nothing server.credential_type
        then pure record {
          headers = gateway_headers ctx token;
          source = "gateway_token";
          credential_id = none;
          expires_at = none;
        }
        else stored_secret m now ctx server (gateway_headers ctx token)
