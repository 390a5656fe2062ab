-- ===== src/Tests/Credentials.antt =====
-- agentid/credentials and agentid/audit at small inputs.
use agentid_mcp_gateway.Prelude.{String, none, some, [], ◌∷◌, ◌≡◌, ◌≢◌, refl, arith}
use agentid_mcp_gateway.Context.{RequestContext}
use agentid_mcp_gateway.Json.{get, get_or, get_truthy, value_truthy, Value, str, obj, end, field}
use agentid_mcp_gateway.Models.{AuditEvent, CredentialType}
use agentid_mcp_gateway.Audit.Events.{from_context, no_extra}
use agentid_mcp_gateway.Credentials.Cache.{TokenCache, Key, cache_get}
use agentid_mcp_gateway.Credentials.Manager.{
  Holdings, resolve, find_credential, first_owned, candidates,
}
use agentid_mcp_gateway.Credentials.Manager.Ownership.{Owned, Carries, built, resolve-Carries}
use agentid_mcp_gateway.Credentials.Secrets.{
  SecretKind, SecretMaterial, api_key_secret, null_provider, oauth_secret, open_vault, refresh,
}
use agentid_mcp_gateway.Errors.{ok}
use agentid_mcp_gateway.Errors.Holds.{Holds}
use agentid_mcp_gateway.Tests.Gateway.{manager}
use agentid_mcp_gateway.Tests.Data.{db, github, deploy_secret, alice_ctx}

abbrev leaking : Value
leaking = obj (field "user" (obj (field "Token" (str "t0p") end)) (field "note" (str "hello") end))

abbrev event : AuditEvent
event =
    from_context 7 alice_ctx "mcp.call" "allow"
      (record no_extra { details = field "password" (str "pw") end })

abbrev cache : TokenCache String
cache = record { default_ttl_seconds = 300; leeway_seconds = 30; entries = [] }

abbrev key : Key
key = ("crd_1", 0)

abbrev filled : TokenCache String
filled = record cache { entries = (key, record { value = "secret"; expires_at = 60000000 }) ∷ [] }

hit : (cache_get 0 key filled).0 ≡ some "secret"
unfolding cache_get
hit = refl

abbrev deploy_ctx : RequestContext
deploy_ctx = record alice_ctx { service_account_id = some "svc_deploy" }

found : find_credential db deploy_ctx github ≡ some deploy_secret
unfolding find_credential first_owned candidates
found = refl

-- the only stored credential, and the only secret there is
abbrev Own : String → SecretMaterial → Type 0
Own id secret = (id ≡ "crd_1") × (secret.value ≡ "k")

built_k :
    (t : CredentialType) (sealed : String) (s : SecretMaterial)
    → built manager t sealed ≡ ok s
    → s.value ≡ "k"
unfolding open_vault oauth_secret api_key_secret get get_or get_truthy value_truthy
built_k CredentialType.nothing sealed s h = absurd (ground arith)
built_k CredentialType.oauth sealed s h = absurd (ground arith)
built_k CredentialType.api_key sealed s h = ground arith
built_k CredentialType.service_account sealed s h = ground arith

never_refreshed :
    (name : String) (old new : SecretMaterial) → refresh manager.refresh_registry name old ≢ ok new
unfolding refresh null_provider
never_refreshed name old new h = ground arith

abbrev cached_secret : SecretMaterial
cached_secret = record {
  kind = SecretKind.api_key;
  value = "k";
  expires_at = none;
  refresh_token = none;
  extra = end;
}

-- the secret of the deployer is in the cache
abbrev kept : Holdings
kept = record {
  db = db;
  cache = record {
    default_ttl_seconds = 300;
    leeway_seconds = 30;
    entries = (("crd_1", 0), record { value = cached_secret; expires_at = 90000000 }) ∷ [];
  };
}

kept-Owned : Owned manager Own kept
kept-Owned = record {
  rows = ((λ s h. (refl, built_k CredentialType.api_key "sealed" s h)), tt);
  entries = ((refl, refl), tt);
}

resolve-Carries_example :
    Owned manager Own (resolve manager 5 "jti_1" deploy_ctx github kept).1
    × Holds
        (Carries manager Own
          (λ i s s' t own h. (own.0, built_k t _ s' h))
          (λ name i s s' own h. absurd (never_refreshed name s s' h))
          5
          kept
          deploy_ctx
          github)
        (resolve manager 5 "jti_1" deploy_ctx github kept).0
resolve-Carries_example =
    resolve-Carries manager Own (λ i s s' t own h. (own.0, built_k t _ s' h))
      (λ name i s s' own h. absurd (never_refreshed name s s' h)) 5 "jti_1" deploy_ctx github kept
      kept-Owned
