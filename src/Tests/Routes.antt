-- ===== src/Tests/Routes.antt =====
-- agentid/gateway/api: exchanges of a token, and the deletion of a server with a credential.
use agentid_mcp_gateway.Registry.Servers.{require_server, resolve_server, get_server_by_name}
use agentid_mcp_gateway.Prelude.{true, none, some, ◌≡◌, refl, false, [], ◌∷◌, ◌==◌, join}
use agentid_mcp_gateway.Config.{default_settings}
use agentid_mcp_gateway.Errors.{ok, raise, integrity_error}
use agentid_mcp_gateway.Json.{Fields, str, end, field}
use agentid_mcp_gateway.Jwt.{Payload}
use agentid_mcp_gateway.Models.{Db, CredentialType, Agent}
use agentid_mcp_gateway.Credentials.Manager.{Holdings}
use agentid_mcp_gateway.Identity.Tokens.{from_payload, downstream}
use agentid_mcp_gateway.Identity.Agents.{
  get_agent, require_agent, user_may_delegate_to, get_agent_by_name,
}
use agentid_mcp_gateway.Identity.Delegation.{
  delegate, delegation_target, DelegationResult, issue_delegation, is_autonomous,
}
use agentid_mcp_gateway.Identity.Users.{require_user}
use agentid_mcp_gateway.Gateway.Auth.{check_session, is_user_persona}
use agentid_mcp_gateway.Gateway.Exchange.{
  ExchangeResult, check_subject, token_exchange, ExchangeRequest, Draw, grant_type_token_exchange,
  token_type_jwt, exchange_for_delegation,
}
use agentid_mcp_gateway.Gateway.Exchange.Completeness.{issued}
use agentid_mcp_gateway.Gateway.Catalog.{delete_server_route, store_credential}
use agentid_mcp_gateway.Gateway.Catalog.Deletion.{holdings_or, store_credential-delete_server}
use agentid_mcp_gateway.Tests.Data.{db, alice, helper, alice_ctx}
use agentid_mcp_gateway.Tests.Gateway.{alice_claims, manager, world}
use agentid_mcp_gateway.Gateway.Exchange.Subjects.{
  token_exchange_sound, token_exchange_ignores_actor,
}

abbrev draw : Draw
draw = record { now = 5; later = 6; fresh = "dlg_7"; jti = "jti_7" }

abbrev body : ExchangeRequest
body = record {
  actor = "helper";
  grant_type = grant_type_token_exchange;
  requested_token_type = token_type_jwt;
  scope = none;
}

abbrev made : DelegationResult × Db
made =
    issue_delegation default_settings 5 6 "dlg_7" "jti_7" alice helper none ("mcp:tools" ∷ []) none
      db

abbrev exchanged : ExchangeResult
exchanged = record {
  access_token = made.0.token;
  expires_in = 900;
  scope = some "mcp:tools";
  delegation_id = "dlg_7";
}

alice_exchanges : token_exchange default_settings draw alice_claims body db ≡ ok (exchanged, made.1)
unfolding token_exchange check_subject from_payload check_session exchange_for_delegation
    require_user delegate delegation_target require_agent get_agent get_agent_by_name
    user_may_delegate_to join issue_delegation
alice_exchanges = refl

token_exchange_sound_example :
    ((alice_claims.token_type == downstream) ≡ false)
    × ((alice_claims.subject_type == "user") ≡ true)
    × (is_user_persona alice_claims.persona ≡ true)
    × (exchanged.access_token.sub ≡ "usr_alice")
    × (agent : Agent) × (require_agent db "helper" ≡ ok agent)
    × (agent.is_active ≡ true)
    × (is_autonomous agent.kind ≡ false)
    × (user_may_delegate_to db "usr_alice" agent.id ≡ true)
    × (exchanged.access_token.act_sub ≡ some agent.id)
unfolding from_payload
token_exchange_sound_example =
    token_exchange_sound default_settings draw alice_claims body db alice_exchanges

token_exchange_ignores_actor_example :
    token_exchange default_settings draw
      (record alice_claims { act_sub = some "agt_helper"; delegation_id = some "dlg_2" })
      body
      db
    ≡ token_exchange default_settings draw alice_claims body db
token_exchange_ignores_actor_example =
    token_exchange_ignores_actor default_settings draw alice_claims (some "agt_helper")
      (some "dlg_2") body db

abbrev secret : Fields
secret = field "api_key" (str "k") end

abbrev after : Holdings
unfolding store_credential
after = holdings_or world.holdings (
    store_credential manager 5 6 "crd_9" alice_ctx "github" CredentialType.api_key secret none none
      none world.holdings)

secret_stored :
    store_credential manager 5 6 "crd_9" alice_ctx "github" CredentialType.api_key secret none none
      none world.holdings
    ≡ ok ("crd_9", after)
unfolding store_credential require_server resolve_server get_server_by_name
secret_stored = refl

store_credential-delete_server_example :
    delete_server_route 7 alice_ctx "github" after.db ≡ raise integrity_error
store_credential-delete_server_example =
    store_credential-delete_server manager 5 6 "crd_9" "github" alice_ctx CredentialType.api_key
      secret none none none world.holdings 7 secret_stored

abbrev exchange_token : Payload
exchange_token = (issued default_settings draw alice_claims body db alice helper).0.token
