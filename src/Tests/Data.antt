-- ===== src/Tests/Data.antt =====
-- One gateway: a user, two agents, a service account, a server and its tool.
use agentid_mcp_gateway.Prelude.{
  ℕ, ◌+◌, ◌<◌, String, true, false, none, some, [], ◌∷◌, ◌==◌, eq_iff, ◌≡◌, arith, ◌&&◌, ltb,
  if◌then◌else◌,
}
use agentid_mcp_gateway.Context.{RequestContext, new_context}
use agentid_mcp_gateway.Json.{end}
use agentid_mcp_gateway.Jwt.{Payload, Jwt, Decoded, valid, invalid_token}
use agentid_mcp_gateway.Models.{
  Db, empty_db, User, Agent, ServiceAccount, Persona, IdentityType, AgentKind, Role, Effect,
  McpServer, Tool, CredentialType, Credential, Session, Delegation,
}

abbrev pub alice : User
alice = record {
  id = "usr_alice";
  email = "alice@example.com";
  display_name = none;
  password_hash = some "hash";
  is_active = true;
  roles = "rol_dev" ∷ [];
}

abbrev pub helper : Agent
helper = record {
  id = "agt_helper";
  name = "helper";
  description = none;
  kind = AgentKind.delegated;
  owner_user_id = none;
  is_active = true;
  roles = "rol_dev" ∷ [];
}

-- an agent without a role
abbrev pub bare : Agent
bare = record {
  id = "agt_bare";
  name = "bare";
  description = none;
  kind = AgentKind.delegated;
  owner_user_id = none;
  is_active = true;
  roles = [];
}

abbrev pub deployer : ServiceAccount
deployer = record {
  id = "svc_deploy";
  name = "deployer";
  description = none;
  is_active = true;
  roles = "rol_dev" ∷ [];
}

abbrev pub dev : Role
dev = record {
  id = "rol_dev";
  name = "dev";
  description = none;
  entries =
      record { permission = "github.*"; effect = Effect.allow }
      ∷ record { permission = "agentid.admin"; effect = Effect.allow }
      ∷ [];
}

abbrev pub github : McpServer
github = record {
  id = "srv_github";
  name = "github";
  description = none;
  endpoint = "http://github:9000";
  credential_type = CredentialType.nothing;
  audience = none;
  enabled = true;
  capabilities = end;
}

abbrev pub create_issue : Tool
create_issue = record {
  server_id = "srv_github";
  name = "create_issue";
  qualified_name = "github.create_issue";
  description = none;
  input_schema = end;
  required_permission = some "github.create_issue";
  tags = [];
  enabled = true;
  requires_service_account = false;
  default_service_account_id = none;
}

abbrev pub login_session : Session
login_session = record {
  id = "ses_1";
  subject_type = IdentityType.user;
  subject_id = "usr_alice";
  persona = Persona.user;
  agent_id = none;
  expires_at = 1000;
  revoked_at = none;
  client = none;
}

abbrev pub delegation : Delegation
delegation = record {
  id = "dlg_1";
  jti = "jti_1";
  user_id = "usr_alice";
  agent_id = "agt_helper";
  session_id = none;
  scope = none;
  expires_at = 1000;
  revoked = false;
}

abbrev pub revoked_delegation : Delegation
revoked_delegation = record delegation { id = "dlg_2"; revoked = true }

abbrev pub deploy_secret : Credential
deploy_secret = record {
  id = "crd_1";
  server_id = "srv_github";
  owner_type = IdentityType.service_account;
  owner_id = "svc_deploy";
  credential_type = CredentialType.api_key;
  ciphertext = "sealed";
  expires_at = none;
  refresh_ciphertext = none;
  updated_at = 0;
}

abbrev pub db : Db
db = record empty_db {
  users = alice ∷ [];
  agents = helper ∷ bare ∷ [];
  service_accounts = deployer ∷ [];
  roles = dev ∷ [];
  user_agent_grants =
      record { user_id = "usr_alice"; agent_id = "agt_helper"; scopes = none; revoked_at = none }
      ∷ [];
  service_account_grants =
      record {
        grantee_type = IdentityType.user;
        grantee_id = "usr_alice";
        service_account_id = "svc_deploy";
        revoked_at = none;
      }
      ∷ [];
  sessions = login_session ∷ [];
  delegations = delegation ∷ revoked_delegation ∷ [];
  servers = github ∷ [];
  tools = create_issue ∷ [];
  credentials = deploy_secret ∷ [];
}

-- alice alone, and the helper acting for her
abbrev pub alice_ctx : RequestContext
alice_ctx = record (new_context "req_1" Persona.user) {
  user_id = some "usr_alice";
  scopes = "mcp:tools" ∷ [];
}

abbrev pub helper_ctx : RequestContext
helper_ctx = record alice_ctx { agent_id = some "agt_helper" }

abbrev pub bare_ctx : RequestContext
bare_ctx = record alice_ctx { agent_id = some "agt_bare" }

-- the helper on its own
abbrev pub machine_ctx : RequestContext
machine_ctx = record (new_context "req_2" Persona.non_user) {
  agent_id = some "agt_helper";
  scopes = "mcp:tools" ∷ [];
}

-- the payload of alice's access token
abbrev pub alice_payload : Payload
alice_payload = record {
  iss = "agentid";
  aud = "agentid-gateway";
  sub = "usr_alice";
  persona = some Persona.user;
  typ = some "access";
  iat = 0;
  exp = 3600;
  jti = "jti_0";
  scope = some "mcp:tools";
  sub_type = some "user";
  sid = none;
  did = none;
  act_sub = none;
  on_behalf_of = none;
  execution_identity = none;
  tool = none;
  rid = none;
}

-- A library that knows one token: it checks its audience, its issuer and its expiry.
abbrev pub decode_one : Payload → ℕ → ℕ → String → String → String → String → Decoded
decode_one p now leeway token key audience issuer =
    if p.aud == audience && (p.iss == issuer && ltb now (p.exp + leeway))
    then valid p
    else invalid_token

pub decode_one-valid :
    (p : Payload) (now leeway : ℕ) (token key audience issuer : String) (q : Payload)
    → decode_one p now leeway token key audience issuer ≡ valid q
    → (q.aud ≡ audience) × (q.iss ≡ issuer) × (now < q.exp + leeway)
decode_one-valid p now leeway token key audience issuer q h =
    (ground (arith, eq_iff p.aud audience), ground (arith, eq_iff p.iss issuer), ground arith)

pub decode_one-own :
    (p : Payload) (now : ℕ) (token key : String)
    → now < p.exp
    → decode_one p now 0 token key p.aud p.iss ≡ valid p
decode_one-own p now token key early = ground (arith, eq_iff p.aud p.aud, eq_iff p.iss p.iss)

abbrev pub jwt_of : Payload → Jwt
jwt_of p = record {
  encode = λ payload key. payload.jti;
  decode = decode_one p;
  decode-valid = decode_one-valid p;
}
