-- ===== src/Sdk/Claims.antt =====
-- agentid/sdk/server/claims.py: the claims of a gateway-issued downstream credential.
pub mod Chain
use agentid_mcp_gateway.Prelude.{
  ℕ, String, Bool, true, false, not, Option, none, some, List, [], ◌∷◌, ◌++◌, ◌==◌, is_empty,
  truthy, join, if◌then◌else◌,
}
use agentid_mcp_gateway.Context.{text_of, part}
use agentid_mcp_gateway.Jwt.{Payload}
use agentid_mcp_gateway.Models.{Persona}
use agentid_mcp_gateway.Identity.Sessions.{seconds}
use agentid_mcp_gateway.Identity.Tokens.{or_default, if_truthy, scopes_of}

pub record GatewayClaims : Type 0 where
  pub subject : String
  pub subject_type : String
  pub audience : String
  pub issuer : String
  pub issued_at : ℕ
  pub expires_at : ℕ
  pub persona : Persona
  pub jti : String
  pub agent : Option String
  pub on_behalf_of : Option String
  pub service_account : Option String
  pub tool : Option String
  pub request_id : Option String
  pub scopes : List String

-- `GatewayClaims.from_payload`
unfoldable pub from_payload : Payload → GatewayClaims
from_payload p = record {
  subject = p.sub;
  subject_type = or_default p.sub_type "user";
  audience = p.aud;
  issuer = p.iss;
  issued_at = seconds p.iat;
  expires_at = seconds p.exp;
  persona = or_default p.persona Persona.user;
  jti = p.jti;
  agent = if_truthy p.act_sub;
  on_behalf_of = p.on_behalf_of;
  service_account = p.execution_identity;
  tool = p.tool;
  request_id = p.rid;
  scopes = scopes_of p.scope;
}

-- The human in the chain, or none for autonomous execution.
unfoldable pub human_user : GatewayClaims → Option String
human_user c = if not (c.subject_type == "user") then c.on_behalf_of else some c.subject

-- the identities that are there, in order
abbrev pub parts : Option String → Option String → Option String → List String
parts user agent sa = part user ++ part agent ++ part sa

unfoldable pub identity_chain : GatewayClaims → String
unfolding human_user
identity_chain c =
    let ps = parts (human_user c) c.agent c.service_account in
    if is_empty ps then c.subject else join " -> " ps
