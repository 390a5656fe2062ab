-- ===== src/Audit/Events.antt =====
-- agentid/audit/events.py and logger.py, with the database sink of storage.py: the events, and the table that they are added to.
use agentid_mcp_gateway.Prelude.{ℕ, String, true, Option, none, some, [], ◌∷◌, ◌++◌, ◌≡◌}
use agentid_mcp_gateway.Context.{RequestContext, execution_identity}
use agentid_mcp_gateway.Json.{Fields, end, obj}
use agentid_mcp_gateway.Models.{Db, AuditEvent}
use agentid_mcp_gateway.Audit.Redaction.{redact, redact_fields, clean, redact-clean}

-- A pending event has the fields of the stored one.
abbrev pub AuditRecord : Type 0
AuditRecord = AuditEvent

-- The keyword arguments of `log`.
pub record Extra : Type 0 where
  pub reason : Option String
  pub policy : Option String
  pub status_code : Option ℕ
  pub latency_ms : Option ℕ
  pub error : Option String
  pub details : Fields

abbrev pub no_extra : Extra
no_extra = record {
  reason = none;
  policy = none;
  status_code = none;
  latency_ms = none;
  error = none;
  details = end;
}

-- `AuditRecord.from_context`, at a time
unfoldable pub from_context : ℕ → RequestContext → String → String → Extra → AuditRecord
from_context now ctx action decision extra = record {
  timestamp = now;
  action = action;
  user_id = ctx.user_id;
  agent_id = ctx.agent_id;
  service_account_id = ctx.service_account_id;
  persona = some ctx.persona;
  execution_identity = some (execution_identity ctx);
  session_id = ctx.session_id;
  request_id = some ctx.request_id;
  server = ctx.server;
  tool = ctx.tool;
  resource = ctx.resource;
  decision = decision;
  reason = extra.reason;
  policy = extra.policy;
  status_code = extra.status_code;
  latency_ms = extra.latency_ms;
  error = extra.error;
  details = redact_fields 1 extra.details;
}

-- `AuditRecord.to_model`
unfoldable pub to_model : AuditRecord → AuditEvent
to_model r = record r { details = redact_fields 1 r.details }

-- `DatabaseSink.write`
unfoldable pub write_event : AuditRecord → Db → Db
write_event r db = record db { audit_events = db.audit_events ++ to_model r ∷ [] }

-- `AuditLogger.log`, with the sink of the database
unfoldable pub log : ℕ → RequestContext → String → String → Extra → Db → Db
log now ctx action decision extra db = write_event (from_context now ctx action decision extra) db

-- What reaches the store has no secret under any key that names one.
pub to_model-clean : (r : AuditRecord) → clean (obj (to_model r).details) ≡ true
unfolding to_model redact
to_model-clean r = redact-clean 0 (obj r.details)
