-- ===== src/Gateway/Auth/Keys.antt =====
-- agentid/gateway/middleware/auth.py: the context of a caller with an API key.
use agentid_mcp_gateway.Prelude.{
  ℕ, String, Bool, Option, none, ◌≡◌, refl, arith, Option-cases, inl, inr,
}
use agentid_mcp_gateway.Config.{Settings}
use agentid_mcp_gateway.Context.{RequestContext}
use agentid_mcp_gateway.Errors.{ok, >>=-eq-ok}
use agentid_mcp_gateway.Models.{Db, ApiKey, Persona, IdentityType}
use agentid_mcp_gateway.Identity.Agents.{get_agent}
use agentid_mcp_gateway.Identity.ApiKeys.{verify_api_key}
use agentid_mcp_gateway.Gateway.Auth.{owner_context, from_api_key}

-- A machine with a key never gets the user persona, whatever it is.
pub owner_context-non_user :
    (db : Db) (key : ApiKey) (rid : String) (client : Option String) {ctx : RequestContext}
    → owner_context db key rid client ≡ ok ctx
    → (ctx.persona ≡ Persona.non_user) × (ctx.user_id ≡ none)
unfolding owner_context
owner_context-non_user db key rid client {ctx} h = by_type key.owner_type refl
  where
    by_type :
        (t : IdentityType)
        → key.owner_type ≡ t
        → (ctx.persona ≡ Persona.non_user) × (ctx.user_id ≡ none)
    by_type IdentityType.agent e = elim (Option-cases (get_agent db key.owner_id)) [
      | inl f ↦ absurd (ground arith)
      | inr (a, f) ↦ (ground arith, ground arith)
    ]
    by_type IdentityType.service_account e = (ground arith, ground arith)
    by_type IdentityType.user e = absurd (ground arith)
    by_type IdentityType.gateway e = absurd (ground arith)

pub from_api_key-non_user :
    (check_secret : String → String → Bool) (now : ℕ) (db : Db) (raw rid : String)
    (client : Option String) (s : Settings) {ctx : RequestContext} {db' : Db}
    → from_api_key check_secret now db raw rid client s ≡ ok (ctx, db')
    → ctx.persona ≡ Persona.non_user
unfolding from_api_key
from_api_key-non_user check_secret now db raw rid client s h =
    let ((key, db1), e, h1) = >>=-eq-ok (verify_api_key s check_secret now raw db) _ h in
    let (c, owner, h2) = >>=-eq-ok (owner_context db1 key rid client) _ h1 in
    let (persona, none_user) = owner_context-non_user db1 key rid client owner in
    ground (arith, persona)
