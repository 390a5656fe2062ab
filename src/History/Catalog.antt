-- ===== src/History/Catalog.antt =====
-- agentid/gateway/api/registry.py: what its routes do to the ledger.
use agentid_mcp_gateway.Prelude.{
  ℕ, String, Bool, Option, List, ◌==◌, ◌+++◌, refl, any, find_first, is_some, Bool-cases, inl, inr,
}
use agentid_mcp_gateway.Context.{RequestContext}
use agentid_mcp_gateway.Errors.{raise_if, ErrorKind}
use agentid_mcp_gateway.Errors.Holds.{Holds, Holds->>=, Holds->>=-Holds, Holds->>}
use agentid_mcp_gateway.Json.{Fields}
use agentid_mcp_gateway.Models.{Db, McpServer, Tool, Credential, CredentialType, IdentityType}
use agentid_mcp_gateway.Credentials.Manager.{Manager, Holdings}
use agentid_mcp_gateway.Credentials.Storage.{delete, store}
use agentid_mcp_gateway.Registry.Servers.{
  delete_server, get_server_by_name, register_server, require_server, set_enabled,
}
use agentid_mcp_gateway.Registry.Tools.{delete_tool, get_tool, register_tool, require_tool}
use agentid_mcp_gateway.Gateway.Catalog.{
  changed, delete_credential, delete_server_route, delete_tool_route, register_server_route,
  register_tool_route, set_server_enabled, store_credential,
}
use agentid_mcp_gateway.History.Accounts.{Leaves}
use agentid_mcp_gateway.History.Ledger.{Lawful, Lawful-quiet, Lawful-refl, Lawful-trans}
use agentid_mcp_gateway.History.Sessions.{Lawful-log}

-- a lawful change with its event
Lawful-changed :
    {db db' : Db} (now : ℕ) (admin : RequestContext) (server tool : Option String) (reason : String)
    (details : Fields)
    → Lawful db db'
    → Lawful db (changed now admin server tool reason details db')
Lawful-changed {db' = db'} now admin server tool reason details lawful =
    Lawful-trans lawful (Lawful-log now _ "admin.change" "allow" _ db')

Leaves-register_server :
    (fresh name endpoint : String) (t : CredentialType) (description audience : Option String)
    (enabled : Bool) (capabilities : Fields) (db : Db)
    → Leaves db McpServer
        (register_server fresh name endpoint t description audience enabled capabilities db)
unfolding register_server
Leaves-register_server fresh name endpoint t description audience enabled capabilities db =
    Holds->> _
      (raise_if (is_some (get_server_by_name db name)) ErrorKind.conflict_error "server_exists") _
      (Lawful-quiet refl refl refl refl)

Leaves-set_enabled :
    (name : String) (enabled : Bool) (db : Db) → Leaves db McpServer (set_enabled name enabled db)
unfolding set_enabled
Leaves-set_enabled name enabled db =
    Holds->>= _ (require_server db name) _ (λ s. Lawful-quiet refl refl refl refl)

Lawful-delete_server : (name : String) (db : Db) → Holds (Lawful db) (delete_server name db)
unfolding delete_server
Lawful-delete_server name db = Holds->>= _ (require_server db name) _ (λ s.
    elim (Bool-cases (any (λ (c : Credential). c.server_id == s.id) db.credentials)) [
      | inl e ↦ rw e tt
      | inr e ↦ rw e (Lawful-quiet refl refl refl refl)
    ])

Leaves-register_tool :
    (server : McpServer) (name : String) (description : Option String) (input_schema : Fields)
    (required : Option String) (tags : List String) (requires_sa : Bool)
    (default_sa : Option String) (enabled : Bool) (db : Db)
    → Leaves db Tool (
        register_tool server name description input_schema required tags requires_sa default_sa
          enabled db)
unfolding register_tool
Leaves-register_tool server name description input_schema required tags requires_sa default_sa
      enabled db =
    Holds->> _
      (raise_if (is_some (get_tool db (server.name +++ "." +++ name))) ErrorKind.conflict_error
        "tool_exists")
      _ (Lawful-quiet refl refl refl refl)

Lawful-delete_tool : (name : String) (db : Db) → Holds (Lawful db) (delete_tool name db)
unfolding delete_tool
Lawful-delete_tool name db =
    Holds->>= _ (require_tool db name) _ (λ t. Lawful-quiet refl refl refl refl)

module _ (now : ℕ) (admin : RequestContext) where
  module _ (db : Db) where
    pub Leaves-register_server_route :
        (fresh name endpoint : String) (t : CredentialType) (description audience : Option String)
        (enabled : Bool) (capabilities : Fields)
        → Leaves db McpServer (
            register_server_route now fresh admin name endpoint t description audience enabled
              capabilities db)
    unfolding register_server_route
    Leaves-register_server_route fresh name endpoint t description audience enabled capabilities =
        Holds->>=-Holds _ _
          (register_server fresh name endpoint t description audience enabled capabilities db) _
          (Leaves-register_server fresh name endpoint t description audience enabled capabilities
            db)
          (λ r lawful. Lawful-changed now admin _ _ _ _ lawful)

    pub Leaves-set_server_enabled :
        (name : String) (enabled : Bool)
        → Leaves db McpServer (set_server_enabled now admin name enabled db)
    unfolding set_server_enabled
    Leaves-set_server_enabled name enabled =
        Holds->>=-Holds _ _ (set_enabled name enabled db) _ (Leaves-set_enabled name enabled db)
          (λ r lawful. Lawful-changed now admin _ _ _ _ lawful)

    pub Lawful-delete_server_route :
        (name : String) → Holds (Lawful db) (delete_server_route now admin name db)
    unfolding delete_server_route
    Lawful-delete_server_route name =
        Holds->>=-Holds _ _ (delete_server name db) _ (Lawful-delete_server name db)
          (λ db' lawful. Lawful-changed now admin _ _ _ _ lawful)

    pub Leaves-register_tool_route :
        (server name : String) (description : Option String) (input_schema : Fields)
        (required : Option String) (tags : List String) (requires_sa : Bool)
        (default_sa : Option String) (enabled : Bool)
        → Leaves db Tool (
            register_tool_route now admin server name description input_schema required tags
              requires_sa default_sa enabled db)
    unfolding register_tool_route
    Leaves-register_tool_route server name description input_schema required tags requires_sa
          default_sa enabled =
        Holds->>= _ (require_server db server) _ (λ s.
          Holds->>=-Holds _ _
            (register_tool s name description input_schema required tags requires_sa default_sa
              enabled db)
            _
            (Leaves-register_tool s name description input_schema required tags requires_sa
              default_sa enabled db)
            (λ r lawful. Lawful-changed now admin _ _ _ _ lawful))

    pub Lawful-delete_tool_route :
        (name : String) → Holds (Lawful db) (delete_tool_route now admin name db)
    unfolding delete_tool_route
    Lawful-delete_tool_route name =
        Holds->>=-Holds _ _ (delete_tool name db) _ (Lawful-delete_tool name db)
          (λ db' lawful. Lawful-changed now admin _ _ _ _ lawful)

  module _ (h : Holdings) where
    pub Lawful-delete_credential : (id : String) → Lawful h.db (delete_credential now admin id h).db
    unfolding delete_credential delete
    Lawful-delete_credential id =
        elim (Bool-cases (is_some (find_first (λ (c : Credential). c.id == id) h.db.credentials))) [
          | inl e ↦ rw e (Lawful-changed now admin _ _ _ _ (Lawful-quiet refl refl refl refl))
          | inr e ↦ rw e (Lawful-changed now admin _ _ _ _ (Lawful-refl h.db))
        ]

    pub Leaves-store_credential :
        (m : Manager) (at : ℕ) (fresh name : String) (t : CredentialType) (payload : Fields)
        (owner_type : Option IdentityType) (owner_id : Option String) (expires_at : Option ℕ)
        → Holds
            (λ (r : String × Holdings). Lawful h.db r.1.db)
            (store_credential m at now fresh admin name t payload owner_type owner_id expires_at h)
    unfolding store_credential store
    Leaves-store_credential m at fresh name t payload owner_type owner_id expires_at =
        Holds->>= _ (require_server h.db name) _
          (λ server. Lawful-changed now admin _ _ _ _ (Lawful-quiet refl refl refl refl))
