-- ===== src/Tests/Audit.antt =====
-- agentid/audit/storage.py and agentid/gateway/api/audit.py at three events.
use agentid_mcp_gateway.Prelude.{
  ℕ, ◌+◌, String, Bool, true, Chained, none, some, [], ◌∷◌, ◌++◌, ◌≡◌, refl, length, select,
  sort_by,
}
use mathlib.Core.List.{Perm}
use agentid_mcp_gateway.Context.{RequestContext, new_context}
use agentid_mcp_gateway.Json.{end}
use agentid_mcp_gateway.Models.{Db, AuditEvent, Persona}
use agentid_mcp_gateway.Audit.Query.{
  Filters, no_filters, event_matches, list_events, my_events, query_events,
}
use agentid_mcp_gateway.Audit.Query.Pages.{NoOlder, my_events_of_everyone, query_events-pages}
use agentid_mcp_gateway.Tests.Data.{db}

abbrev event : ℕ → String → AuditEvent
event time user = record {
  timestamp = time;
  action = "mcp.call";
  user_id = some user;
  agent_id = none;
  service_account_id = none;
  persona = some Persona.user;
  execution_identity = some user;
  session_id = none;
  request_id = none;
  server = none;
  tool = none;
  resource = none;
  decision = "allow";
  reason = none;
  policy = none;
  status_code = none;
  latency_ms = none;
  error = none;
  details = end;
}

abbrev watched : Db
watched = record db {
  audit_events = event 1 "usr_alice" ∷ event 3 "usr_bob" ∷ event 2 "usr_alice" ∷ [];
}

abbrev tie : AuditEvent → AuditEvent → Bool
tie a b = true

-- a service account that runs alone
abbrev account_ctx : RequestContext
account_ctx = record (new_context "req_1" Persona.non_user) {
  service_account_id = some "svc_deploy";
}

abbrev of_alice : Filters
of_alice = record no_filters { user_id = some "usr_alice" }

newest_of_alice : query_events tie of_alice 1 0 watched ≡ event 2 "usr_alice" ∷ []
unfolding query_events sort_by event_matches
newest_of_alice = refl

account_sees_all :
    (my_events tie account_ctx 50 watched).1
    ≡ event 3 "usr_bob" ∷ event 2 "usr_alice" ∷ event 1 "usr_alice" ∷ []
unfolding my_events query_events sort_by event_matches
account_sees_all = refl

my_events_of_everyone_example :
    my_events tie account_ctx 50 watched ≡ list_events tie no_filters 50 0 watched
my_events_of_everyone_example = my_events_of_everyone tie account_ctx 50 watched refl refl

query_events-pages_example :
    Chained (NoOlder tie) (query_events tie of_alice 1 0 watched)
    × (query_events tie of_alice 1 0 watched ++ query_events tie of_alice 1 (0 + 1) watched
        ≡ query_events tie of_alice (1 + 1) 0 watched)
    × Perm
        (query_events tie of_alice (length watched.audit_events) 0 watched)
        (select (event_matches of_alice) watched.audit_events)
query_events-pages_example = query_events-pages tie of_alice 1 1 0 watched (λ a b h. refl)
