-- ===== src/Gateway/Catalog/Deletion.antt =====
-- agentid/gateway/api/registry.py: the deletion of a server that has a stored credential.
use agentid_mcp_gateway.Prelude.{
  ℕ, String, Bool, true, Option, some, List, [], ◌∷◌, ◌++◌, ◌==◌, ◌≡◌, refl, arith, any, find_first,
  is_some, update_where, Bool-cases, inl, inr, eq_iff, ap, ◌∙◌,
}
use agentid_mcp_gateway.Context.{RequestContext}
use agentid_mcp_gateway.Errors.{Result, ok, raise, integrity_error, >>=-eq-ok}
use agentid_mcp_gateway.Json.{Fields}
use agentid_mcp_gateway.Models.{Db, McpServer, Credential, CredentialType, IdentityType}
use agentid_mcp_gateway.Audit.Events.{log, write_event}
use agentid_mcp_gateway.Config.{vault_key}
use agentid_mcp_gateway.Credentials.Secrets.{seal_vault}
use agentid_mcp_gateway.Credentials.Manager.{Manager, Holdings, owned_by}
use agentid_mcp_gateway.Credentials.Storage.{owner_or_server, overwritten, store}
use agentid_mcp_gateway.Registry.Servers.{
  delete_server, get_server, get_server_by_name, require_server, resolve_server,
}
use agentid_mcp_gateway.Gateway.Catalog.{
  owner_type_or_gateway, changed, delete_server_route, store_credential,
}

-- a test for the credentials of a server
abbrev of_server : String → Credential → Bool
of_server id c = c.server_id == id

any-update_where :
    (id owner : String) (t : IdentityType) (f : Credential → Credential)
    → ((c : Credential) → (f c).server_id ≡ c.server_id)
    → (cs : List Credential)
    → any (of_server id) (update_where (owned_by id t owner) f cs) ≡ any (of_server id) cs
any-update_where id owner t f keeps [] = refl
any-update_where id owner t f keeps (c ∷ cs) =
    ground (arith, keeps c, any-update_where id owner t f keeps cs)

any-found :
    (id owner : String) (t : IdentityType) (cs : List Credential)
    → is_some (find_first (owned_by id t owner) cs) ≡ true
    → any (of_server id) cs ≡ true
any-found id owner t [] h = ground arith
any-found id owner t (c ∷ cs) h = ground (arith, any-found id owner t cs)

any-append_own :
    (id : String) (c : Credential) (cs : List Credential)
    → c.server_id ≡ id
    → any (of_server id) (cs ++ c ∷ []) ≡ true
any-append_own id c [] h = ground (arith, eq_iff c.server_id id)
any-append_own id c (x ∷ cs) h = ground (arith, any-append_own id c cs h)

-- a store leaves a credential of its server
any-store :
    (m : Manager) (now : ℕ) (fresh : String) (server : McpServer) (t : CredentialType)
    (payload : Fields) (owner_type : IdentityType) (owner_id : Option String)
    (expires_at : Option ℕ) (h : Holdings)
    → any
        (of_server server.id)
        (store m now fresh server t payload owner_type owner_id expires_at h).db.credentials
      ≡ true
unfolding store
any-store m now fresh server t payload owner_type owner_id expires_at h =
    let owned = owned_by server.id owner_type (owner_or_server owner_id server) in
    elim (Bool-cases (is_some (find_first owned h.db.credentials))) [
      | inl e ↦
          rw
            (
              e,
              any-update_where server.id (owner_or_server owner_id server) owner_type
                  (overwritten t (seal_vault m.library (vault_key m.settings) payload) expires_at
                    now)
                  (λ c. refl) h.db.credentials,
            )
            (any-found server.id (owner_or_server owner_id server) owner_type h.db.credentials e)
      | inr e ↦ rw e (any-append_own server.id _ h.db.credentials refl)
    ]

-- the servers are found after a store as before it
require_server-store :
    (m : Manager) (now later : ℕ) (fresh name : String) (admin : RequestContext)
    (tool : Option String) (details : Fields) (server : McpServer) (t : CredentialType)
    (payload : Fields) (owner_type : IdentityType) (owner_id : Option String)
    (expires_at : Option ℕ) (h : Holdings)
    → require_server
        (changed later admin
          (some server.name)
          tool
          "credential.store"
          details
          (store m now fresh server t payload owner_type owner_id expires_at h).db)
        name
      ≡ require_server h.db name
unfolding require_server resolve_server get_server get_server_by_name store log write_event
require_server-store m now later fresh name admin tool details server t payload owner_type owner_id
      expires_at h =
    refl

delete_server-referenced :
    (at : ℕ) (admin : RequestContext) (name : String) (db : Db) (server : McpServer)
    → require_server db name ≡ ok server
    → any (of_server server.id) db.credentials ≡ true
    → delete_server_route at admin name db ≡ raise integrity_error
unfolding delete_server_route delete_server
delete_server-referenced at admin name db server found referenced = rw (found, referenced) refl

abbrev pub holdings_or : Holdings → Result (String × Holdings) → Holdings
holdings_or h (ok (id, h')) = h'
holdings_or h (raise e) = h

-- A server that has a stored credential cannot be deleted: once `store_credential` has stored one for it,
-- `delete_server` fails with the error of the database, since the row of the credential still refers to it.
pub store_credential-delete_server :
    (m : Manager) (now later : ℕ) (fresh name : String) (admin : RequestContext)
    (t : CredentialType) (payload : Fields) (owner_type : Option IdentityType)
    (owner_id : Option String) (expires_at : Option ℕ) (h : Holdings) {id : String} {h' : Holdings}
    (at : ℕ)
    → store_credential m now later fresh admin name t payload owner_type owner_id expires_at h
      ≡ ok (id, h')
    → delete_server_route at admin name h'.db ≡ raise integrity_error
unfolding store_credential log write_event
store_credential-delete_server m now later fresh name admin t payload owner_type owner_id expires_at
      h {id} {h'} at stored =
    let (server, found, e) = >>=-eq-ok (require_server h.db name) _ stored in
    let owner = owner_type_or_gateway owner_type in
    rw⁻¹ (ap (holdings_or h) e) (
      delete_server-referenced at admin name _ server
        (require_server-store m now later fresh name admin admin.tool _ server t payload owner
            owner_id expires_at h
          ∙ found)
        (any-store m now fresh server t payload owner owner_id expires_at h))
