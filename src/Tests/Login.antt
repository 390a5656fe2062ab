-- ===== src/Tests/Login.antt =====
-- agentid/gateway/api/auth.py at a login of alice, with the requests that follow.
use agentid_mcp_gateway.Prelude.{none, some}
use agentid_mcp_gateway.Config.{default_settings}
use agentid_mcp_gateway.Context.{RequestContext}
use agentid_mcp_gateway.Jwt.{Payload}
use agentid_mcp_gateway.Models.{Db}
use agentid_mcp_gateway.Gateway.Login.{LoginDraw, TokenResponse, open_session}
use agentid_mcp_gateway.Gateway.Login.Admitted.{token}
use agentid_mcp_gateway.Identity.Tokens.{TokenClaims, from_payload}
use agentid_mcp_gateway.Tests.Data.{db, alice, alice_ctx, alice_payload}

abbrev draw : LoginDraw
draw = record { now = 5; later = 6; session_id = "ses_9"; jti = "jti_9" }

abbrev opened : TokenResponse × Db
opened = open_session default_settings draw "req_9" none alice db

abbrev session_ctx : RequestContext
session_ctx = record alice_ctx { session_id = some "ses_1" }

abbrev session_claims : TokenClaims
unfolding from_payload
session_claims = record (from_payload alice_payload) { session_id = some "ses_1" }

abbrev login_token : Payload
login_token = token default_settings draw "req_9" none alice db
