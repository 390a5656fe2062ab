-- ===== src/Tests/Servers.antt =====
-- agentid/servers at requests of the helper for alice, who may write to one repository.
use agentid_mcp_gateway.Prelude.{
  String, List, true, ◌||◌, none, some, [], ◌∷◌, ◌≡◌, ◌⊎◌, refl, contains, lower, partition, strip,
  has_part, join, strip_left, strip_prefix, strip_right, words,
}
use agentid_mcp_gateway.Json.{Fields, str, obj, end, field, get, value_truthy, get_or}
use agentid_mcp_gateway.Jwt.{Payload}
use agentid_mcp_gateway.Sdk.Claims.{GatewayClaims, from_payload, human_user, identity_chain}
use agentid_mcp_gateway.Sdk.Verifier.{TokenVerifier, accepted, verify_header, gateway_auth, verify}
use agentid_mcp_gateway.Servers.Common.{
  Builtins, Answer, text_or, serve, routed, mcp_endpoint, call_tool, call_spec, registry, str_of,
  int_or, put_spec,
}
use agentid_mcp_gateway.Servers.Github.{
  Github, Issue, allow_write, audience, find_issue, github_server, reset_state, create_issue,
  may_write, writers_of, get_issue, list_issues, search_repository,
}
use agentid_mcp_gateway.Servers.Github.Writers.{Change, github_server-Change}
use agentid_mcp_gateway.Servers.Github.Numbers.{
  Request, after_all, issues_numbered, numbered, started, after,
}
use agentid_mcp_gateway.Servers.Postgres.{
  restricted_tables, query, describe_table, require_readable, find_table,
}
use agentid_mcp_gateway.Servers.Postgres.Restricted.{shows}
use agentid_mcp_gateway.Tests.Data.{alice_payload, jwt_of}

abbrev py : Builtins
py = record { to_text = λ v. "1"; to_int = λ s. none }

-- the credential of the gateway for the helper acting for alice
abbrev issued : Payload
issued = record alice_payload {
  aud = audience;
  typ = some "downstream";
  act_sub = some "agt_helper";
  on_behalf_of = some "usr_alice";
}

abbrev verifier : TokenVerifier
verifier = record { secret = "key"; audience = audience; issuer = "agentid"; leeway_seconds = 0 }

abbrev start : Github
start = record {
  writable_repos = ("company/backend", "usr_alice" ∷ []) ∷ [];
  issues = [];
  next_number = 1;
}

start_allowed : allow_write "company/backend" ("usr_alice" ∷ []) reset_state ≡ start
unfolding allow_write
start_allowed = refl

abbrev call : String → Fields → Fields
call name arguments =
    field "method" (str "tools/call")
      (field "params" (obj (field "name" (str name) (field "arguments" (obj arguments) end))) end)

abbrev creation : String → Fields
creation repo = call "create_issue" (field "repo" (str repo) (field "title" (str " Bug ") end))

abbrev asked : Fields → Answer × Github
asked body =
    github_server py (λ e. "error") (jwt_of issued) verifier 5 "/mcp" (some "Bearer t") body start

opened_for_alice : (asked (creation "company/backend")).1.next_number ≡ 2
unfolding serve routed gateway_auth verify_header lower partition verify mcp_endpoint get call_tool
    value_truthy call_spec registry create_issue str_of get_or strip may_write writers_of
    from_payload
opened_for_alice = refl

not_elsewhere : (asked (creation "company/docs")).1 ≡ start
unfolding serve routed gateway_auth verify_header lower partition verify mcp_endpoint get call_tool
    value_truthy call_spec registry create_issue str_of get_or strip may_write writers_of
    from_payload
not_elsewhere = refl

github_server-Change_example :
    ((asked (creation "company/backend")).1 ≡ start)
    ⊎ ((claims : GatewayClaims) × (verify_header (jwt_of issued) verifier 5 (some "Bearer t")
          ≡ accepted claims)
        × Change claims start (asked (creation "company/backend")).1)
github_server-Change_example =
    github_server-Change py (λ e. "error") (jwt_of issued) verifier 5 "/mcp" (some "Bearer t")
      (creation "company/backend") start

abbrev opening : Request
opening = record {
  now = 5;
  path = "/mcp";
  header = some "Bearer t";
  body = creation "company/backend";
}

abbrev served : List Request → Github → Github
served = after_all py (λ e. "error") (jwt_of issued) verifier

abbrev bug : Issue
bug = record {
  number = 1;
  repo = "company/backend";
  title = "Bug";
  body = str "";
  created_by = "usr_alice -> agt_helper";
  state = "open";
}

first_found : find_issue 1 (served (opening ∷ []) (started start.writable_repos)).issues ≡ some bug
unfolding find_issue after_all after serve routed gateway_auth verify_header lower partition verify
    mcp_endpoint get call_tool value_truthy call_spec registry create_issue get_or has_part join
    strip strip_left strip_prefix strip_right words from_payload human_user identity_chain int_or
    put_spec str_of get_issue list_issues may_write search_repository writers_of
first_found = refl

issues_numbered_example :
    (numbered 1
        (served (opening ∷ []) (started start.writable_repos)).issues
        (served (opening ∷ []) (started start.writable_repos)).next_number
      ≡ true)
    × (find_issue 1
          (served (opening ∷ []) (served (opening ∷ []) (started start.writable_repos))).issues
        ≡ some bug)
issues_numbered_example =
    issues_numbered py (λ e. "error") (jwt_of issued) verifier start.writable_repos (opening ∷ [])
      (opening ∷ []) 1 first_found

abbrev billing : Fields
billing = field "table" (str "private.billing") end

-- the credential of a call that runs as the service account
abbrev account_claims : GatewayClaims
account_claims = from_payload (record issued { execution_identity = some "svc_deploy" })

account_shown :
    (shows (query py account_claims (obj billing) tt).0
      || shows (describe_table py account_claims (obj billing) tt).0)
    ≡ true
unfolding query int_or get str_of get_or require_readable find_table from_payload
account_shown = refl

restricted_billing : contains (text_or py "" (get "table" billing)) restricted_tables ≡ true
unfolding str_of get_or get
restricted_billing = refl
