-- ===== src/Credentials/Storage.antt =====
-- agentid/credentials/manager.py: the administration of stored credentials.
use agentid_mcp_gateway.Credentials.Manager.{Manager, Holdings, owned_by}
use agentid_mcp_gateway.Prelude.{
  ℕ, String, Option, none, [], ◌∷◌, ◌++◌, ◌==◌, find_first, update_where, select, truthy,
  if◌then◌else◌, not, is_some,
}
use agentid_mcp_gateway.Config.{vault_key}
use agentid_mcp_gateway.Context.{text_of}
use agentid_mcp_gateway.Json.{Fields}
use agentid_mcp_gateway.Models.{Credential, CredentialType, IdentityType, McpServer}
use agentid_mcp_gateway.Credentials.Cache.{clear}
use agentid_mcp_gateway.Credentials.Secrets.{seal_vault}

abbrev pub owner_or_server : Option String → McpServer → String
owner_or_server owner_id server = if truthy owner_id then text_of owner_id else server.id

abbrev pub overwritten : CredentialType → String → Option ℕ → ℕ → Credential → Credential
overwritten t ciphertext expires_at now c = record c {
  credential_type = t;
  ciphertext = ciphertext;
  expires_at = expires_at;
  updated_at = now;
}

-- `store`: the row of the server and the owner is overwritten, or added; the cache is emptied
unfoldable pub store :
    Manager
    → ℕ
    → String
    → McpServer
    → CredentialType
    → Fields
    → IdentityType
    → Option String
    → Option ℕ
    → Holdings
    → Holdings
store m now fresh server t payload owner_type owner_id expires_at h =
    let owner = owner_or_server owner_id server in
    let ciphertext = seal_vault m.library (vault_key m.settings) payload in
    let owned = owned_by server.id owner_type owner in
    record {
      db = record h.db {
        credentials =
            if is_some (find_first owned h.db.credentials)
            then update_where owned (overwritten t ciphertext expires_at now) h.db.credentials
            else h.db.credentials
              ++ record {
                id = fresh;
                server_id = server.id;
                owner_type = owner_type;
                owner_id = owner;
                credential_type = t;
                ciphertext = ciphertext;
                expires_at = expires_at;
                refresh_ciphertext = none;
                updated_at = now;
              }
                ∷ [];
      };
      cache = clear h.cache;
    }

-- `delete`
unfoldable pub delete : String → Holdings → Holdings
delete credential_id h =
    if is_some (find_first (λ (c : Credential). c.id == credential_id) h.db.credentials)
    then record {
      db = record h.db {
        credentials = select (λ (c : Credential). not (c.id == credential_id)) h.db.credentials;
      };
      cache = clear h.cache;
    }
    else h
