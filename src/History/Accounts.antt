-- ===== src/History/Accounts.antt =====
-- agentid/gateway/api/identity.py: what its routes do to the ledger.
use agentid_mcp_gateway.Prelude.{ℕ, String, Option, List, refl, is_some, ◌+++◌}
use agentid_mcp_gateway.Config.{Settings}
use agentid_mcp_gateway.Context.{RequestContext}
use agentid_mcp_gateway.Errors.{Result, raise_if, ErrorKind}
use agentid_mcp_gateway.Errors.Holds.{Holds, Holds->>=, Holds->>=-Holds, Holds->>}
use agentid_mcp_gateway.Models.{Db, User, Agent, ServiceAccount, AgentKind, IdentityType}
use agentid_mcp_gateway.Identity.Agents.{
  create_agent, require_agent, grant_agent_to_user, revoke_agent_from_user, get_agent_by_name,
}
use agentid_mcp_gateway.Identity.ServiceAccounts.{
  create_service_account, require_service_account, grant_service_account, revoke_service_account,
  get_service_account_by_name,
}
use agentid_mcp_gateway.Identity.ApiKeys.{issue_api_key}
use agentid_mcp_gateway.Identity.Users.{
  create_user, require_user, get_user_by_email, resolve_some_roles,
}
use agentid_mcp_gateway.Gateway.Accounts.{
  ApiKeyResponse, audit_admin, create_user_route, grant_agent, revoke_agent, create_agent_route,
  create_service_account_route, grant_service_account_route, revoke_service_account_grant,
  create_api_key, revoke_api_key_route,
}
use agentid_mcp_gateway.History.Ledger.{Lawful, Lawful-quiet, Lawful-trans}
use agentid_mcp_gateway.History.Sessions.{Lawful-log, Lawful-issue_api_key, Lawful-revoke_api_key}

-- the state that comes back with a value
abbrev pub Leaves : Db → (A : Type 0) → Result (A × Db) → Type 0
Leaves db A = Holds (λ (r : A × Db). Lawful db r.1)

-- a lawful change with its event
Lawful-audit_admin :
    {db db' : Db} (now : ℕ) (admin : RequestContext) (target change : String)
    → Lawful db db'
    → Lawful db (audit_admin now admin target change db')
unfolding audit_admin
Lawful-audit_admin {db' = db'} now admin target change lawful =
    Lawful-trans lawful (Lawful-log now admin "admin.change" "allow" _ db')

Leaves-create_user :
    (hash_password : String → String) (fresh email : String) (password display_name : Option String)
    (roles : List String) (db : Db)
    → Leaves db User (create_user hash_password fresh email password display_name roles db)
unfolding create_user
Leaves-create_user hash_password fresh email password display_name roles db =
    Holds->> _
      (raise_if (is_some (get_user_by_email db email)) ErrorKind.conflict_error "user_exists") _
      (Holds->>= _ (resolve_some_roles db roles) _ (λ ids. Lawful-quiet refl refl refl refl))

Leaves-create_agent :
    (fresh name : String) (kind : AgentKind) (description owner : Option String)
    (roles : List String) (db : Db)
    → Leaves db Agent (create_agent fresh name kind description owner roles db)
unfolding create_agent
Leaves-create_agent fresh name kind description owner roles db =
    Holds->> _
      (raise_if (is_some (get_agent_by_name db name)) ErrorKind.conflict_error "agent_exists") _
      (Holds->>= _ (resolve_some_roles db roles) _ (λ ids. Lawful-quiet refl refl refl refl))

Leaves-create_service_account :
    (fresh name : String) (description : Option String) (roles : List String) (db : Db)
    → Leaves db ServiceAccount (create_service_account fresh name description roles db)
unfolding create_service_account
Leaves-create_service_account fresh name description roles db =
    Holds->> _
      (raise_if (is_some (get_service_account_by_name db name)) ErrorKind.conflict_error
        "sa_exists")
      _ (Holds->>= _ (resolve_some_roles db roles) _ (λ ids. Lawful-quiet refl refl refl refl))

module _ (now : ℕ) (admin : RequestContext) (db : Db) where
  pub Leaves-create_user_route :
      (hash_password : String → String) (fresh email : String)
      (password display_name : Option String) (roles : List String)
      → Leaves db User
          (create_user_route hash_password now fresh admin email password display_name roles db)
  unfolding create_user_route
  Leaves-create_user_route hash_password fresh email password display_name roles =
      Holds->>=-Holds _ _ (create_user hash_password fresh email password display_name roles db) _
        (Leaves-create_user hash_password fresh email password display_name roles db)
        (λ r lawful. Lawful-audit_admin now admin r.0.id "user.create" lawful)

  pub Leaves-create_agent_route :
      (fresh name : String) (kind : AgentKind) (description owner : Option String)
      (roles : List String)
      → Leaves db Agent (create_agent_route now fresh admin name kind description owner roles db)
  unfolding create_agent_route
  Leaves-create_agent_route fresh name kind description owner roles =
      Holds->>=-Holds _ _ (create_agent fresh name kind description owner roles db) _
        (Leaves-create_agent fresh name kind description owner roles db)
        (λ r lawful. Lawful-audit_admin now admin r.0.id "agent.create" lawful)

  pub Leaves-create_service_account_route :
      (fresh name : String) (description : Option String) (roles : List String)
      → Leaves db ServiceAccount
          (create_service_account_route now fresh admin name description roles db)
  unfolding create_service_account_route
  Leaves-create_service_account_route fresh name description roles =
      Holds->>=-Holds _ _ (create_service_account fresh name description roles db) _
        (Leaves-create_service_account fresh name description roles db)
        (λ r lawful. Lawful-audit_admin now admin r.0.id "service_account.create" lawful)

  pub Lawful-grant_agent :
      (user_id identifier : String) (scopes : Option String)
      → Holds (Lawful db) (grant_agent now admin user_id identifier scopes db)
  unfolding grant_agent grant_agent_to_user
  Lawful-grant_agent user_id identifier scopes = Holds->>= _ (require_user db user_id) _ (λ user.
      Holds->>= _ (require_agent db identifier) _ (λ agent.
        Lawful-audit_admin now admin (user.id +++ "->" +++ agent.id) "grant.agent"
          (Lawful-quiet refl refl refl refl)))

  pub Lawful-grant_service_account_route :
      (identifier : String) (grantee_type : IdentityType) (grantee_id : String)
      → Holds
          (Lawful db)
          (grant_service_account_route now admin identifier grantee_type grantee_id db)
  unfolding grant_service_account_route grant_service_account
  Lawful-grant_service_account_route identifier grantee_type grantee_id =
      Holds->>= _ (require_service_account db identifier) _ (λ sa.
        Lawful-audit_admin now admin (grantee_id +++ "->" +++ sa.id) "grant.service_account"
          (Lawful-quiet refl refl refl refl))

module _ (now later : ℕ) (admin : RequestContext) (db : Db) where
  pub Lawful-revoke_agent :
      (user_id identifier : String)
      → Holds (Lawful db) (revoke_agent now later admin user_id identifier db)
  unfolding revoke_agent revoke_agent_from_user
  Lawful-revoke_agent user_id identifier = Holds->>= _ (require_agent db identifier) _ (λ agent.
      Lawful-audit_admin later admin (user_id +++ "->" +++ agent.id) "revoke.agent"
        (Lawful-quiet refl refl refl refl))

  pub Lawful-revoke_service_account_grant :
      (identifier grantee_id : String) (grantee_type : IdentityType)
      → Holds
          (Lawful db)
          (revoke_service_account_grant now later admin identifier grantee_id grantee_type db)
  unfolding revoke_service_account_grant revoke_service_account
  Lawful-revoke_service_account_grant identifier grantee_id grantee_type =
      Holds->>= _ (require_service_account db identifier) _ (λ sa.
        Lawful-audit_admin later admin (grantee_id +++ "->" +++ sa.id) "revoke.service_account"
          (Lawful-quiet refl refl refl refl))

  pub Leaves-create_api_key :
      (s : Settings) (hash_secret : String → String) (fresh key_id secret name : String)
      (owner_type : IdentityType) (owner_id : String) (ttl : Option ℕ)
      → Leaves db ApiKeyResponse (
          create_api_key s hash_secret now later fresh key_id secret admin name owner_type owner_id
            ttl db)
  unfolding create_api_key
  Leaves-create_api_key s hash_secret fresh key_id secret name owner_type owner_id ttl =
      Holds->>=-Holds _ _
        (issue_api_key s hash_secret now fresh key_id secret name owner_type owner_id ttl db) _
        (Lawful-issue_api_key s hash_secret now fresh key_id secret name owner_type owner_id ttl db)
        (λ r lawful. Lawful-audit_admin later admin r.0.0.id "api_key.create" lawful)

  pub Lawful-revoke_api_key_route :
      (id : String) → Lawful db (revoke_api_key_route now later admin id db)
  unfolding revoke_api_key_route
  Lawful-revoke_api_key_route id =
      Lawful-audit_admin later admin id "api_key.revoke" (Lawful-revoke_api_key now id db)
