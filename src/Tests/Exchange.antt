-- ===== src/Tests/Exchange.antt =====
-- agentid/gateway/api/auth.py at exchanges of alice's token, one for her helper and one for an agent that is
-- not granted to her.
use agentid_mcp_gateway.Identity.Agents.{
  require_agent, get_agent, get_agent_by_name, user_may_delegate_to,
}
use agentid_mcp_gateway.Identity.Delegation.{delegate, delegation_target}
use agentid_mcp_gateway.Identity.Users.{require_user}
use agentid_mcp_gateway.Gateway.Auth.{check_session}
use agentid_mcp_gateway.Prelude.{String, none, ◌≡◌, refl}
use agentid_mcp_gateway.Config.{default_settings}
use agentid_mcp_gateway.Errors.{ok, Result}
use agentid_mcp_gateway.Models.{Db}
use agentid_mcp_gateway.Identity.Tokens.{TokenClaims, from_payload, verify}
use agentid_mcp_gateway.Gateway.Exchange.{
  Draw, ExchangeRequest, ExchangeResult, grant_type_token_exchange, token_type_jwt, check_subject,
  exchange_for_delegation,
}
use agentid_mcp_gateway.Gateway.Exchange.Route.{exchange_route, subject_claims}
use agentid_mcp_gateway.Gateway.Exchange.Route.Recorded.{Recorded, verdict, exchange_route-Recorded}
use agentid_mcp_gateway.Tests.Data.{db, alice_payload, jwt_of}

abbrev draw : Draw
draw = record { now = 5; later = 6; fresh = "dlg_7"; jti = "jti_7" }

abbrev request_for : String → ExchangeRequest
request_for actor = record {
  actor = actor;
  grant_type = grant_type_token_exchange;
  requested_token_type = token_type_jwt;
  scope = none;
}

abbrev tried : String → Result ExchangeResult × Db
tried actor =
    exchange_route (jwt_of alice_payload) (λ e. "refused") default_settings draw 7 "req_7" "token"
      (request_for actor) db

helper_allowed : verdict (tried "helper").0 ≡ "allow"
unfolding exchange_route subject_claims verify check_subject from_payload check_session
    exchange_for_delegation require_user delegate delegation_target require_agent get_agent
    get_agent_by_name user_may_delegate_to
helper_allowed = refl

bare_denied : verdict (tried "bare").0 ≡ "deny"
unfolding exchange_route subject_claims verify check_subject from_payload check_session
    exchange_for_delegation require_user delegate delegation_target require_agent get_agent
    get_agent_by_name user_may_delegate_to
bare_denied = refl

abbrev alice_claims : TokenClaims
unfolding from_payload
alice_claims = from_payload alice_payload

alice_passes : subject_claims (jwt_of alice_payload) default_settings 5 "token" db ≡ ok alice_claims
unfolding subject_claims verify check_subject from_payload check_session
alice_passes = refl

exchange_route-Recorded_example : Recorded db alice_claims (tried "bare")
exchange_route-Recorded_example =
    exchange_route-Recorded (jwt_of alice_payload) (λ e. "refused") default_settings draw 7 "req_7"
      "token" (request_for "bare") db alice_passes
