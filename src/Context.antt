-- ===== src/Context.antt =====
-- agentid/context.py: who a request runs for, as authentication found it, and what it asks for.
use agentid_mcp_gateway.Prelude.{
  ℕ, String, Bool, ◌&&◌, Option, none, some, List, [], ◌∷◌, ◌++◌, ◌+++◌, truthy, is_some,
  if◌then◌else◌, join,
}
use agentid_mcp_gateway.Models.{Persona}

pub record RequestContext : Type 0 where
  pub request_id : String
  pub persona : Persona
  pub user_id : Option String
  pub agent_id : Option String
  pub service_account_id : Option String
  pub session_id : Option String
  pub delegation_id : Option String
  pub token_id : Option String
  pub scopes : List String
  pub server : Option String
  pub tool : Option String
  pub resource : Option String
  pub client : Option String
  pub issued_at : Option ℕ
  pub expires_at : Option ℕ

-- A context with the defaults of the source's fields.
abbrev pub new_context : String → Persona → RequestContext
new_context request_id persona = record {
  request_id = request_id;
  persona = persona;
  user_id = none;
  agent_id = none;
  service_account_id = none;
  session_id = none;
  delegation_id = none;
  token_id = none;
  scopes = [];
  server = none;
  tool = none;
  resource = none;
  client = none;
  issued_at = none;
  expires_at = none;
}

unfoldable pub is_delegated : RequestContext → Bool
is_delegated ctx = is_some ctx.user_id && is_some ctx.agent_id

abbrev pub text_of : Option String → String
text_of none = ""
text_of (some s) = s

-- the text, if it is there and is not empty: one item of `[p for p in (...) if p]`
abbrev pub part : Option String → List String
part o = if truthy o then text_of o ∷ [] else []

-- The identity that the downstream request runs as.
unfoldable pub execution_identity : RequestContext → String
execution_identity ctx =
    if truthy ctx.service_account_id
    then text_of ctx.service_account_id
    else if truthy ctx.user_id
    then text_of ctx.user_id
    else if truthy ctx.agent_id
    then text_of ctx.agent_id
    else "anonymous"

abbrev persona_value : Persona → String
persona_value Persona.user = "user"
persona_value Persona.non_user = "non-user"

abbrev labelled : String → Option String → List String
labelled label o = if truthy o then (label +++ text_of o) ∷ [] else []

pub principal_description : RequestContext → String
principal_description ctx = join " " (
    ("persona=" +++ persona_value ctx.persona) ∷ labelled "user=" ctx.user_id
    ++ labelled "agent=" ctx.agent_id
    ++ labelled "service_account=" ctx.service_account_id)

unfoldable pub with_tool :
    Option String → Option String → Option String → RequestContext → RequestContext
with_tool server tool resource ctx = record ctx {
  server = server;
  tool = tool;
  resource = if is_some resource then resource else ctx.resource;
}
