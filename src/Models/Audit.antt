-- ===== src/Models/Audit.antt =====
-- agentid/models/audit_event.py: the append-only audit events.
use agentid_mcp_gateway.Prelude.{ℕ, String, Option}
use agentid_mcp_gateway.Json.{Fields}
use agentid_mcp_gateway.Models.Identity.{Persona}

pub record AuditEvent : Type 0 where
  pub timestamp : ℕ
  pub action : String
  pub user_id : Option String
  pub agent_id : Option String
  pub service_account_id : Option String
  pub persona : Option Persona
  pub execution_identity : Option String
  pub session_id : Option String
  pub request_id : Option String
  pub server : Option String
  pub tool : Option String
  pub resource : Option String
  pub decision : String
  pub reason : Option String
  pub policy : Option String
  pub status_code : Option ℕ
  pub latency_ms : Option ℕ
  pub error : Option String
  pub details : Fields
