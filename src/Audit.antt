-- ===== src/Audit.antt =====
-- agentid/audit: events, the removal of secrets from them, their storage, and its queries.
pub mod Redaction
pub mod Events
pub mod Query
