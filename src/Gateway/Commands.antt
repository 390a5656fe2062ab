-- ===== src/Gateway/Commands.antt =====
-- agentid/gateway/api: what a request asks the gateway for, a constructor for each route with the fields of
-- its path, its query and its body, and what a response holds.
use agentid_mcp_gateway.Prelude.{ℕ, String, Bool, Option, List}
use agentid_mcp_gateway.Json.{Fields}
use agentid_mcp_gateway.Models.{AgentKind, AuditEvent, CredentialType, IdentityType}
use agentid_mcp_gateway.Audit.Query.{Filters}
use agentid_mcp_gateway.Authorization.Policies.{PolicyDocument}
use agentid_mcp_gateway.Identity.Tokens.{TokenClaims}
use agentid_mcp_gateway.Registry.Schemas.{ServerSchema, ToolSchema}
use agentid_mcp_gateway.Gateway.Accounts.{
  ApiKeyResponse, UserResponse, AgentResponse, ServiceAccountResponse,
}
use agentid_mcp_gateway.Gateway.Deps.{WhoAmI}
use agentid_mcp_gateway.Gateway.Discovery.{DiscoveryResult}
use agentid_mcp_gateway.Gateway.Exchange.{ExchangeRequest, ExchangeResult}
use agentid_mcp_gateway.Gateway.Login.{TokenResponse}
use agentid_mcp_gateway.Gateway.Policy.{RoleResponse}
use agentid_mcp_gateway.Gateway.Proxy.{ProxyResponse}

-- the routes of an authenticated caller
pub data CallerCommand : Type 0 where
  introspect : String → CallerCommand
  logout whoami my_agents servers : CallerCommand
  my_events : ℕ → CallerCommand
  list_permitted_tools : String → ℕ → CallerCommand
  search_tools : String → List String → ℕ → CallerCommand
  -- the tool, its arguments, the server, the service account and the resource
  call_tool : String → Fields → Option String → Option String → Option String → CallerCommand
  list_servers : Bool → CallerCommand
  get_server : String → CallerCommand

-- the routes of an administrator
pub data AdminCommand : Type 0 where
  list_users list_agents list_service_accounts list_roles : AdminCommand
  create_user : String → Option String → Option String → List String → AdminCommand
  get_user get_agent : String → AdminCommand
  grant_agent : String → String → Option String → AdminCommand
  revoke_agent : String → String → AdminCommand
  create_agent : String → AgentKind → Option String → Option String → List String → AdminCommand
  create_service_account : String → Option String → List String → AdminCommand
  grant_service_account : String → IdentityType → String → AdminCommand
  revoke_service_account : String → String → IdentityType → AdminCommand
  create_api_key : String → IdentityType → String → Option ℕ → AdminCommand
  list_api_keys : Option String → AdminCommand
  revoke_api_key : String → AdminCommand
  put_role : PolicyDocument → AdminCommand
  get_role : String → AdminCommand
  apply_bundle : List PolicyDocument → AdminCommand
  assign_user_roles assign_agent_roles assign_sa_roles : String → List String → AdminCommand
  register_server :
      String
      → String
      → CredentialType
      → Option String
      → Option String
      → Bool
      → Fields
      → AdminCommand
  set_server_enabled : String → Bool → AdminCommand
  delete_server : String → AdminCommand
  register_tool :
      String
      → String
      → Option String
      → Fields
      → Option String
      → List String
      → Bool
      → Option String
      → Bool
      → AdminCommand
  list_tools : Option String → AdminCommand
  delete_tool : String → AdminCommand
  store_credential :
      String
      → CredentialType
      → Fields
      → Option IdentityType
      → Option String
      → Option ℕ
      → AdminCommand
  delete_credential : String → AdminCommand
  list_events : Filters → ℕ → ℕ → AdminCommand

pub data Command : Type 0 where
  login : String → String → Command
  token_exchange : String → ExchangeRequest → Command
  as_caller : CallerCommand → Command
  as_admin : AdminCommand → Command

-- a server of the route `servers`
pub record ServerSummary : Type 0 where
  pub name : String
  pub description : Option String
  pub enabled : Bool
  pub tool_count : ℕ

pub record CallToolResponse : Type 0 where
  pub request_id : String
  pub tool : String
  pub server : String
  pub decision : String
  pub execution_identity : String
  pub response : ProxyResponse
  pub latency_ms : ℕ

pub data Reply : Type 0 where
  token_response : TokenResponse → Reply
  exchange_response : ExchangeResult → Reply
  introspection : Option TokenClaims → Reply
  status : String → Reply
  who : WhoAmI → Reply
  discovery : DiscoveryResult → Reply
  summaries : List ServerSummary → Reply
  call_response : CallToolResponse → Reply
  events : ℕ → List AuditEvent → Reply
  user : UserResponse → Reply
  users : List UserResponse → Reply
  agent : AgentResponse → Reply
  agents : List AgentResponse → Reply
  service_account : ServiceAccountResponse → Reply
  service_accounts : List ServiceAccountResponse → Reply
  api_key : ApiKeyResponse → Reply
  api_keys : List ApiKeyResponse → Reply
  role : RoleResponse → Reply
  roles : List RoleResponse → Reply
  names : List String → Reply
  server : ServerSchema → Reply
  server_list : List ServerSchema → Reply
  tool : ToolSchema → Reply
  tool_list : List ToolSchema → Reply
  credential : String → Reply
