-- ===== src/Audit/Query.antt =====
-- agentid/audit/storage.py and agentid/gateway/api/audit.py: the questions that are asked of the audit
-- trail. The id of an event is random; what it decides, the order of events of one time, is given.
pub mod Pages
use agentid_mcp_gateway.Prelude.{
  ℕ, String, Bool, true, false, ◌&&◌, Option, none, some, List, [], ◌∷◌, ◌==◌, ◌≡◌, is_some, leb,
  ltb, truthy, length, map, select, take, drop, sort_by, if◌then◌else◌,
}
use agentid_mcp_gateway.Context.{RequestContext, text_of}
use agentid_mcp_gateway.Json.{Fields, Value, end, field, str, num, obj, null, text_or_null}
use agentid_mcp_gateway.Models.{Db, AuditEvent, Persona, persona_value}

-- The filters of `query_events`; one that is absent or empty filters nothing.
pub record Filters : Type 0 where
  pub user_id : Option String
  pub agent_id : Option String
  pub tool : Option String
  pub server : Option String
  pub decision : Option String
  pub action : Option String
  pub request_id : Option String
  pub since : Option ℕ
  pub until : Option ℕ

abbrev pub no_filters : Filters
no_filters = record {
  user_id = none;
  agent_id = none;
  tool = none;
  server = none;
  decision = none;
  action = none;
  request_id = none;
  since = none;
  until = none;
}

-- `if wanted: stmt.where(column == wanted)`
abbrev pub matches_text : Option String → Option String → Bool
matches_text wanted found =
    if truthy wanted then is_some found && text_of found == text_of wanted else true

abbrev not_before : Option ℕ → ℕ → Bool
not_before none t = true
not_before (some since) t = leb since t

abbrev not_after : Option ℕ → ℕ → Bool
not_after none t = true
not_after (some until) t = leb t until

unfoldable pub event_matches : Filters → AuditEvent → Bool
event_matches f e =
    matches_text f.user_id e.user_id
    && matches_text f.agent_id e.agent_id
    && matches_text f.tool e.tool
    && matches_text f.server e.server
    && matches_text f.decision (some e.decision)
    && matches_text f.action (some e.action)
    && matches_text f.request_id e.request_id
    && not_before f.since e.timestamp
    && not_after f.until e.timestamp

-- `order_by(AuditEvent.timestamp.desc(), AuditEvent.id.desc())`: `tie a b` says that the id of the one is
-- no less than that of the other
abbrev pub newest_first : (AuditEvent → AuditEvent → Bool) → AuditEvent → AuditEvent → Bool
newest_first tie a b =
    if ltb b.timestamp a.timestamp
    then true
    else if ltb a.timestamp b.timestamp
    then false
    else tie a b

unfoldable pub query_events :
    (AuditEvent → AuditEvent → Bool) → Filters → ℕ → ℕ → Db → List AuditEvent
query_events tie f limit offset db =
    take limit (drop offset (sort_by (newest_first tie) (select (event_matches f) db.audit_events)))

abbrev num_or_null : Option ℕ → Value
num_or_null none = null
num_or_null (some n) = num n

abbrev persona_or_null : Option Persona → Value
persona_or_null none = null
persona_or_null (some p) = str (persona_value p)

-- `event_to_dict`, given the id of the event and the ISO form of times
pub event_to_dict : (ℕ → String) → (AuditEvent → String) → AuditEvent → Fields
event_to_dict to_iso id_of e = field "id" (str (id_of e)) (
    field "timestamp" (str (to_iso e.timestamp)) (
      field "action" (str e.action) (
        field "user_id" (text_or_null e.user_id) (
          field "agent_id" (text_or_null e.agent_id) (
            field "service_account_id" (text_or_null e.service_account_id) (
              field "persona" (persona_or_null e.persona) (
                field "execution_identity" (text_or_null e.execution_identity) (
                  field "session_id" (text_or_null e.session_id) (
                    field "request_id" (text_or_null e.request_id) (
                      field "server" (text_or_null e.server) (
                        field "tool" (text_or_null e.tool) (
                          field "resource" (text_or_null e.resource) (
                            field "decision" (str e.decision) (
                              field "reason" (text_or_null e.reason) (
                                field "policy" (text_or_null e.policy) (
                                  field "status_code" (num_or_null e.status_code) (
                                    field "latency_ms" (num_or_null e.latency_ms) (
                                      field "error" (text_or_null e.error)
                                        (field "details" (obj e.details) end)))))))))))))))))))

-- The answer of the route `list_events` is the number of the events and the events themselves. The guard
-- of administrators has passed.
unfoldable pub list_events :
    (AuditEvent → AuditEvent → Bool) → Filters → ℕ → ℕ → Db → ℕ × List AuditEvent
list_events tie f limit offset db =
    let events = query_events tie f limit offset db in (length events, events)

-- the filters of `my_events`
abbrev pub own_filters : RequestContext → Filters
own_filters ctx = record no_filters {
  user_id = ctx.user_id;
  agent_id = if truthy ctx.user_id then none else ctx.agent_id;
}

-- the route `my_events`
unfoldable pub my_events :
    (AuditEvent → AuditEvent → Bool) → RequestContext → ℕ → Db → ℕ × List AuditEvent
my_events tie ctx limit db =
    let events = query_events tie (own_filters ctx) limit 0 db in (length events, events)
