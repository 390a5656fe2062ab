-- ===== src/Models/Sessions.antt =====
-- agentid/models/session.py: sessions, API keys and delegation records, and when each is active.
use agentid_mcp_gateway.Prelude.{
  ℕ, String, Option, none, some, Bool, true, false, not, ◌&&◌, ltb, is_some, if◌then◌else◌,
}
use agentid_mcp_gateway.Models.Identity.{IdentityType, Persona}

pub record Session : Type 0 where
  pub id : String
  pub subject_type : IdentityType
  pub subject_id : String
  pub persona : Persona
  pub agent_id : Option String
  pub expires_at : ℕ
  pub revoked_at : Option ℕ
  pub client : Option String

-- `Session.is_active` at the time `now`
unfoldable pub session_is_active : ℕ → Session → Bool
session_is_active now s = if is_some s.revoked_at then false else ltb now s.expires_at

pub record ApiKey : Type 0 where
  pub id : String
  pub name : String
  pub key_id : String
  pub secret_hash : String
  pub owner_type : IdentityType
  pub owner_id : String
  pub expires_at : Option ℕ
  pub revoked_at : Option ℕ
  pub last_used_at : Option ℕ

abbrev not_expired : ℕ → Option ℕ → Bool
not_expired now none = true
not_expired now (some expires) = ltb now expires

-- `ApiKey.is_active`: a key without an expiry does not expire
unfoldable pub api_key_is_active : ℕ → ApiKey → Bool
api_key_is_active now k = if is_some k.revoked_at then false else not_expired now k.expires_at

pub record Delegation : Type 0 where
  pub id : String
  pub jti : String
  pub user_id : String
  pub agent_id : String
  pub session_id : Option String
  pub scope : Option String
  pub expires_at : ℕ
  pub revoked : Bool

-- `Delegation.is_active`
unfoldable pub delegation_is_active : ℕ → Delegation → Bool
delegation_is_active now d = not d.revoked && ltb now d.expires_at
