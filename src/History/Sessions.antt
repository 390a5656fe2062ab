-- ===== src/History/Sessions.antt =====
-- agentid/identity and agentid/audit: what the operations on sessions, delegations, keys and events do to the
-- ledger.
use agentid_mcp_gateway.Prelude.{
  ℕ, String, Bool, not, ◌&&◌, Option, some, List, ◌==◌, inl, inr, refl, arith, is_none, Bool-cases,
  Option-cases, if◌then◌else◌,
}
use agentid_mcp_gateway.Config.{Settings}
use agentid_mcp_gateway.Context.{RequestContext}
use agentid_mcp_gateway.Errors.Holds.{Holds, Holds->>=}
use agentid_mcp_gateway.Models.{Db, Session, Delegation, ApiKey, User, IdentityType, Persona}
use agentid_mcp_gateway.Audit.Events.{
  AuditRecord, Extra, log, write_event, from_context, to_model-clean,
}
use agentid_mcp_gateway.Identity.ApiKeys.{
  is_user, issue_api_key, revoke_api_key, verify_api_key, parse_api_key, used, check_key, find_key,
}
use agentid_mcp_gateway.Identity.Delegation.{
  DelegationResult, delegate, delegation_target, issue_delegation, revoke_delegation,
  revoke_delegations_for_user,
}
use agentid_mcp_gateway.Identity.Sessions.{create_session, revoke_session, revoke_sessions_for}
use agentid_mcp_gateway.History.Evolution.{
  none_left, and_then, Evolved-append, Evolved-update_where,
}
use agentid_mcp_gateway.History.Ledger.{
  SessionChange, NewSession, DelegationChange, NewDelegation, KeyChange, KeyChange-refl, NewKey,
  EventChange, NewEvent, Lawful, sessions_same, delegations_same, api_keys_same, audit_events_same,
}

-- An event is added.
pub Lawful-write_event : (r : AuditRecord) (db : Db) → Lawful db (write_event r db)
unfolding write_event
Lawful-write_event r db = record {
  sessions = sessions_same db;
  delegations = delegations_same db;
  api_keys = api_keys_same db;
  audit_events =
      Evolved-append EventChange NewEvent (λ e. refl) db.audit_events
        (and_then (to_model-clean r) none_left);
}

pub Lawful-log :
    (now : ℕ) (ctx : RequestContext) (action decision : String) (extra : Extra) (db : Db)
    → Lawful db (log now ctx action decision extra db)
unfolding log
Lawful-log now ctx action decision extra db =
    Lawful-write_event (from_context now ctx action decision extra) db

-- A session of a human is opened.
pub Lawful-create_session :
    (now ttl : ℕ) (fresh user_id : String) (agent_id client : Option String)
    (ttl_seconds : Option ℕ) (db : Db)
    → Lawful db
        (create_session now ttl fresh IdentityType.user user_id Persona.user agent_id client
          ttl_seconds db).1
unfolding create_session
Lawful-create_session now ttl fresh user_id agent_id client ttl_seconds db = record {
  sessions =
      Evolved-append SessionChange NewSession (λ s. inl refl) db.sessions
        (and_then (refl, refl) none_left);
  delegations = delegations_same db;
  api_keys = api_keys_same db;
  audit_events = audit_events_same db;
}

pub Lawful-revoke_session : (now : ℕ) (id : String) (db : Db) → Lawful db (revoke_session now id db)
unfolding revoke_session
Lawful-revoke_session now id db = record {
  sessions =
      Evolved-update_where SessionChange NewSession (λ s. inl refl) (λ (s : Session). s.id == id) _
        (λ s p. first_time s) db.sessions;
  delegations = delegations_same db;
  api_keys = api_keys_same db;
  audit_events = audit_events_same db;
}
  where
    first_time :
        (s : Session)
        → SessionChange s (if is_none s.revoked_at then record s { revoked_at = some now } else s)
    first_time s = elim (Option-cases s.revoked_at) [
      | inl e ↦ rw e (inr (refl, (now, refl)))
      | inr (t, e) ↦ rw e (inl refl)
    ]

pub Lawful-revoke_sessions_for :
    (now : ℕ) (subject_id : String) (db : Db) → Lawful db (revoke_sessions_for now subject_id db).1
unfolding revoke_sessions_for
Lawful-revoke_sessions_for now subject_id db = record {
  sessions =
      Evolved-update_where SessionChange NewSession (λ s. inl refl)
        (λ (s : Session). s.subject_id == subject_id && is_none s.revoked_at) _
        (λ s live. inr (ground arith, (now, refl))) db.sessions;
  delegations = delegations_same db;
  api_keys = api_keys_same db;
  audit_events = audit_events_same db;
}

-- A delegation is recorded, or the exchange is refused.
pub Lawful-delegate :
    (s : Settings) (now later : ℕ) (fresh jti : String) (user : User) (identifier : String)
    (session_id : Option String) (scopes : List String) (ttl : Option ℕ) (db : Db)
    → Holds
        (λ (r : DelegationResult × Db). Lawful db r.1)
        (delegate s now later fresh jti user identifier session_id scopes ttl db)
unfolding delegate issue_delegation
Lawful-delegate s now later fresh jti user identifier session_id scopes ttl db =
    Holds->>= _ (delegation_target db user identifier) _ (λ agent. record {
      sessions = sessions_same db;
      delegations =
          Evolved-append DelegationChange NewDelegation (λ d. inl refl) db.delegations
            (and_then tt none_left);
      api_keys = api_keys_same db;
      audit_events = audit_events_same db;
    })

pub Lawful-revoke_delegation : (id : String) (db : Db) → Lawful db (revoke_delegation id db)
unfolding revoke_delegation
Lawful-revoke_delegation id db = record {
  sessions = sessions_same db;
  delegations =
      Evolved-update_where DelegationChange NewDelegation (λ d. inl refl)
        (λ (d : Delegation). d.id == id) _ (λ d p. inr refl) db.delegations;
  api_keys = api_keys_same db;
  audit_events = audit_events_same db;
}

pub Lawful-revoke_delegations_for_user :
    (user_id : String) (db : Db) → Lawful db (revoke_delegations_for_user user_id db).1
unfolding revoke_delegations_for_user
Lawful-revoke_delegations_for_user user_id db = record {
  sessions = sessions_same db;
  delegations =
      Evolved-update_where DelegationChange NewDelegation (λ d. inl refl)
        (λ (d : Delegation). d.user_id == user_id && not d.revoked) _ (λ d p. inr refl)
        db.delegations;
  api_keys = api_keys_same db;
  audit_events = audit_events_same db;
}

-- A key of no user is issued, or the request is refused.
pub Lawful-issue_api_key :
    (s : Settings) (hash_secret : String → String) (now : ℕ) (fresh key_id secret name : String)
    (owner_type : IdentityType) (owner_id : String) (ttl : Option ℕ) (db : Db)
    → Holds
        (λ (r : (ApiKey × String) × Db). Lawful db r.1)
        (issue_api_key s hash_secret now fresh key_id secret name owner_type owner_id ttl db)
unfolding issue_api_key
Lawful-issue_api_key s hash_secret now fresh key_id secret name owner_type owner_id ttl db =
    elim (Bool-cases (is_user owner_type)) [
      | inl e ↦ rw e tt
      | inr e ↦ rw e record {
        sessions = sessions_same db;
        delegations = delegations_same db;
        api_keys =
            Evolved-append KeyChange NewKey KeyChange-refl db.api_keys (and_then e none_left);
        audit_events = audit_events_same db;
      }
    ]

-- Only the time of the last use of a key is written when it is used.
pub Lawful-verify_api_key :
    (s : Settings) (verify : String → String → Bool) (now : ℕ) (raw : String) (db : Db)
    → Holds (λ (r : ApiKey × Db). Lawful db r.1) (verify_api_key s verify now raw db)
unfolding verify_api_key
Lawful-verify_api_key s verify now raw db = Holds->>= _ (parse_api_key s raw) _ (λ parsed.
    Holds->>= _ (check_key verify now parsed.1 (find_key parsed.0 db.api_keys)) _ (λ k. record {
      sessions = sessions_same db;
      delegations = delegations_same db;
      api_keys =
          Evolved-update_where KeyChange NewKey KeyChange-refl
            (λ (x : ApiKey). x.key_id == parsed.0) _ (λ x p. stamped x) db.api_keys;
      audit_events = audit_events_same db;
    }))
  where
    stamped : (x : ApiKey) → KeyChange x (used now x)
    stamped x = record {
      id = refl;
      name = refl;
      key_id = refl;
      secret_hash = refl;
      owner_type = refl;
      owner_id = refl;
      expires_at = refl;
      revocation = inr refl;
    }

pub Lawful-revoke_api_key : (now : ℕ) (id : String) (db : Db) → Lawful db (revoke_api_key now id db)
unfolding revoke_api_key
Lawful-revoke_api_key now id db = record {
  sessions = sessions_same db;
  delegations = delegations_same db;
  api_keys =
      Evolved-update_where KeyChange NewKey KeyChange-refl (λ (k : ApiKey). k.id == id) _
        (λ k p. first_time k) db.api_keys;
  audit_events = audit_events_same db;
}
  where
    first_time :
        (k : ApiKey)
        → KeyChange k (if is_none k.revoked_at then record k { revoked_at = some now } else k)
    first_time k = elim (Option-cases k.revoked_at) [
      | inl e ↦ rw e (record {
        id = refl;
        name = refl;
        key_id = refl;
        secret_hash = refl;
        owner_type = refl;
        owner_id = refl;
        expires_at = refl;
        revocation = inl refl;
      })
      | inr (t, e) ↦ rw e (KeyChange-refl _)
    ]
