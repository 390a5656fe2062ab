-- ===== src/Gateway/Exchange/Completeness.antt =====
-- agentid/gateway/api/auth.py: a token that may be exchanged is, and the new token is accepted.
use agentid_mcp_gateway.Prelude.{String, none, List}
use agentid_mcp_gateway.Config.{Settings}
use agentid_mcp_gateway.Jwt.{Jwt}
use agentid_mcp_gateway.Models.{Db, User, Agent, Delegation}
use agentid_mcp_gateway.Identity.Delegation.{DelegationResult, issue_delegation}
use agentid_mcp_gateway.Identity.Tokens.{scope_claim, TokenClaims, from_payload}
use agentid_mcp_gateway.Gateway.Exchange.{Draw, ExchangeRequest, ExchangeResult, requested_scopes}

module _ (s : Settings) (draw : Draw) (claims : TokenClaims) (body : ExchangeRequest) (db : Db)
    (user : User) (agent : Agent) where
  abbrev pub scopes : List String
  scopes = requested_scopes body.scope

  abbrev pub issued : DelegationResult × Db
  unfolding issue_delegation
  issued =
      issue_delegation s draw.now draw.later draw.fresh draw.jti user agent claims.session_id scopes
        none db

  abbrev token_claims : TokenClaims
  token_claims = from_payload issued.0.token

  abbrev result : ExchangeResult
  result = record {
    access_token = issued.0.token;
    expires_in = s.delegated_token_ttl_seconds;
    scope = scope_claim scopes;
    delegation_id = issued.0.delegation.id;
  }
