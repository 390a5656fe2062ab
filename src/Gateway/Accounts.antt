-- ===== src/Gateway/Accounts.antt =====
-- agentid/gateway/api/identity.py: the routes that write users, agents, service accounts, grants and API
-- keys, with their audit events. The guard of administrators has passed, and `admin` is its context; a
-- route answers with the row that it wrote.
use agentid_mcp_gateway.Prelude.{
  ℕ, String, Bool, Option, none, some, List, [], ◌+++◌, map, truthy, if◌then◌else◌,
}
use agentid_mcp_gateway.Config.{Settings}
use agentid_mcp_gateway.Context.{RequestContext, text_of}
use agentid_mcp_gateway.Errors.{Result, ok, ◌>>=◌}
use agentid_mcp_gateway.Json.{field, str, end}
use agentid_mcp_gateway.Models.{
  Db, User, Agent, ServiceAccount, Role, ApiKey, AgentKind, IdentityType,
}
use agentid_mcp_gateway.Authorization.Rbac.{roles_of}
use agentid_mcp_gateway.Audit.Events.{log, no_extra}
use agentid_mcp_gateway.Identity.Users.{create_user, require_user}
use agentid_mcp_gateway.Identity.Agents.{
  create_agent, require_agent, grant_agent_to_user, revoke_agent_from_user, list_user_agents,
}
use agentid_mcp_gateway.Identity.ServiceAccounts.{
  create_service_account, require_service_account, grant_service_account, revoke_service_account,
}
use agentid_mcp_gateway.Identity.ApiKeys.{issue_api_key, list_api_keys, revoke_api_key}

-- `_audit_admin`
unfoldable pub audit_admin : ℕ → RequestContext → String → String → Db → Db
audit_admin now admin target change db =
    log now admin "admin.change" "allow"
      (record no_extra { reason = some change; details = field "target" (str target) end }) db

unfoldable pub create_user_route :
    (String → String)
    → ℕ
    → String
    → RequestContext
    → String
    → Option String
    → Option String
    → List String
    → Db
    → Result (User × Db)
create_user_route hash_password now fresh admin email password display_name roles db = do
  r ← create_user hash_password fresh email password display_name roles db
  ok (r.0, audit_admin now admin r.0.id "user.create" r.1)

-- the route `grant_agent`
unfoldable pub grant_agent : ℕ → RequestContext → String → String → Option String → Db → Result Db
grant_agent now admin user_id agent_identifier scopes db = do
  user ← require_user db user_id
  agent ← require_agent db agent_identifier
  ok (
      audit_admin now admin (user.id +++ "->" +++ agent.id) "grant.agent"
        (grant_agent_to_user user.id agent.id scopes db))

-- The route `revoke_agent`, given the times of the revocation and of its event. The user need not exist.
unfoldable pub revoke_agent : ℕ → ℕ → RequestContext → String → String → Db → Result Db
revoke_agent now later admin user_id agent_identifier db = do
  agent ← require_agent db agent_identifier
  ok (
      audit_admin later admin (user_id +++ "->" +++ agent.id) "revoke.agent"
        (revoke_agent_from_user now user_id agent.id db))

pub my_agents : RequestContext → Db → List Agent
my_agents ctx db = if truthy ctx.user_id then list_user_agents db (text_of ctx.user_id) else []

unfoldable pub create_agent_route :
    ℕ
    → String
    → RequestContext
    → String
    → AgentKind
    → Option String
    → Option String
    → List String
    → Db
    → Result (Agent × Db)
create_agent_route now fresh admin name kind description owner_user_id roles db = do
  r ← create_agent fresh name kind description owner_user_id roles db
  ok (r.0, audit_admin now admin r.0.id "agent.create" r.1)

unfoldable pub create_service_account_route :
    ℕ
    → String
    → RequestContext
    → String
    → Option String
    → List String
    → Db
    → Result (ServiceAccount × Db)
create_service_account_route now fresh admin name description roles db = do
  r ← create_service_account fresh name description roles db
  ok (r.0, audit_admin now admin r.0.id "service_account.create" r.1)

unfoldable pub grant_service_account_route :
    ℕ → RequestContext → String → IdentityType → String → Db → Result Db
grant_service_account_route now admin sa_identifier grantee_type grantee_id db = do
  sa ← require_service_account db sa_identifier
  ok (
      audit_admin now admin (grantee_id +++ "->" +++ sa.id) "grant.service_account"
        (grant_service_account grantee_type grantee_id sa.id db))

unfoldable pub revoke_service_account_grant :
    ℕ → ℕ → RequestContext → String → String → IdentityType → Db → Result Db
revoke_service_account_grant now later admin sa_identifier grantee_id grantee_type db = do
  sa ← require_service_account db sa_identifier
  ok (
      audit_admin later admin (grantee_id +++ "->" +++ sa.id) "revoke.service_account"
        (revoke_service_account now grantee_type grantee_id sa.id db))

pub record ApiKeyResponse : Type 0 where
  pub id : String
  pub name : String
  pub owner_type : IdentityType
  pub owner_id : String
  pub expires_at : Option ℕ
  pub api_key : Option String

-- the response of a key, with its plaintext where it is just issued
abbrev key_response : Option String → ApiKey → ApiKeyResponse
key_response api_key key = record {
  id = key.id;
  name = key.name;
  owner_type = key.owner_type;
  owner_id = key.owner_id;
  expires_at = key.expires_at;
  api_key = api_key;
}

unfoldable pub create_api_key :
    Settings
    → (String → String)
    → ℕ
    → ℕ
    → String
    → String
    → String
    → RequestContext
    → String
    → IdentityType
    → String
    → Option ℕ
    → Db
    → Result (ApiKeyResponse × Db)
create_api_key s hash_secret now later fresh key_id secret admin name owner_type owner_id
      ttl_seconds db =
    do
      r ←
          issue_api_key s hash_secret now fresh key_id secret name owner_type owner_id ttl_seconds
            db
      ok (key_response (some r.0.1) r.0.0, audit_admin later admin r.0.0.id "api_key.create" r.1)

-- the route `list_api_keys`: no plaintext is shown again
pub listed_api_keys : Option String → Db → List ApiKeyResponse
listed_api_keys owner_id db = map (key_response none) (list_api_keys db owner_id)

unfoldable pub revoke_api_key_route : ℕ → ℕ → RequestContext → String → Db → Db
revoke_api_key_route now later admin api_key_id db =
    audit_admin later admin api_key_id "api_key.revoke" (revoke_api_key now api_key_id db)

-- the responses of `_user_response`, `_agent_response` and `_sa_response`, with the names of the roles
pub record UserResponse : Type 0 where
  pub id : String
  pub email : String
  pub display_name : Option String
  pub is_active : Bool
  pub roles : List String

pub record AgentResponse : Type 0 where
  pub id : String
  pub name : String
  pub kind : AgentKind
  pub description : Option String
  pub owner_user_id : Option String
  pub is_active : Bool
  pub roles : List String

pub record ServiceAccountResponse : Type 0 where
  pub id : String
  pub name : String
  pub description : Option String
  pub is_active : Bool
  pub roles : List String

abbrev role_names : Db → List String → List String
role_names db ids = map (λ (r : Role). r.name) (roles_of db ids)

pub user_response : Db → User → UserResponse
user_response db user = record {
  id = user.id;
  email = user.email;
  display_name = user.display_name;
  is_active = user.is_active;
  roles = role_names db user.roles;
}

pub agent_response : Db → Agent → AgentResponse
agent_response db agent = record {
  id = agent.id;
  name = agent.name;
  kind = agent.kind;
  description = agent.description;
  owner_user_id = agent.owner_user_id;
  is_active = agent.is_active;
  roles = role_names db agent.roles;
}

pub sa_response : Db → ServiceAccount → ServiceAccountResponse
sa_response db sa = record {
  id = sa.id;
  name = sa.name;
  description = sa.description;
  is_active = sa.is_active;
  roles = role_names db sa.roles;
}

-- the listings, in the order of creation
pub list_users : Db → List UserResponse
list_users db = map (user_response db) db.users

pub list_agents : Db → List AgentResponse
list_agents db = map (agent_response db) db.agents

pub list_service_accounts : Db → List ServiceAccountResponse
list_service_accounts db = map (sa_response db) db.service_accounts

-- the routes `get_user` and `get_agent`
pub shown_user : String → Db → Result UserResponse
shown_user user_id db = require_user db user_id >>= λ u. ok (user_response db u)

pub shown_agent : String → Db → Result AgentResponse
shown_agent agent_id db = require_agent db agent_id >>= λ a. ok (agent_response db a)
