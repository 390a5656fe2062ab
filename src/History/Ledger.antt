-- ===== src/History/Ledger.antt =====
-- The abstract account of what may become of the database: of its sessions, delegations, API keys and audit
-- events. The other tables may change in any way.
use agentid_mcp_gateway.Prelude.{
  ℕ, true, false, Option, none, some, ◌≡◌, ◌⊎◌, inl, inr, refl, arith,
}
use agentid_mcp_gateway.Json.{obj}
use agentid_mcp_gateway.Models.{Db, Session, Delegation, ApiKey, AuditEvent, IdentityType, Persona}
use agentid_mcp_gateway.Audit.Redaction.{clean}
use agentid_mcp_gateway.Identity.ApiKeys.{is_user}
use agentid_mcp_gateway.History.Evolution.{Evolved, Evolved-refl, Evolved-trans}

-- A session stays as it is, or is revoked for the first time.
abbrev pub SessionChange : Session → Session → Type 0
SessionChange s s' =
    (s' ≡ s) ⊎ ((s.revoked_at ≡ none) × ((t : ℕ) × (s' ≡ record s { revoked_at = some t })))

-- A new session is one of a human.
abbrev pub NewSession : Session → Type 0
NewSession s = (s.subject_type ≡ IdentityType.user) × (s.persona ≡ Persona.user)

-- A delegation stays as it is, or is revoked.
abbrev pub DelegationChange : Delegation → Delegation → Type 0
DelegationChange d d' = (d' ≡ d) ⊎ (d' ≡ record d { revoked = true })

abbrev pub NewDelegation : Delegation → Type 0
NewDelegation d = Unit {0}

-- Of a key nothing changes but the time of its last use and, once, that of its revocation.
pub record KeyChange (k k' : ApiKey) : Type 0 where
  pub id : k'.id ≡ k.id
  pub name : k'.name ≡ k.name
  pub key_id : k'.key_id ≡ k.key_id
  pub secret_hash : k'.secret_hash ≡ k.secret_hash
  pub owner_type : k'.owner_type ≡ k.owner_type
  pub owner_id : k'.owner_id ≡ k.owner_id
  pub expires_at : k'.expires_at ≡ k.expires_at
  pub revocation : (k.revoked_at ≡ none) ⊎ (k'.revoked_at ≡ k.revoked_at)

-- A new key is no user's.
abbrev pub NewKey : ApiKey → Type 0
NewKey k = is_user k.owner_type ≡ false

-- An event stays as it is, and a new one shows no secret.
abbrev pub EventChange : AuditEvent → AuditEvent → Type 0
EventChange e e' = e' ≡ e

abbrev pub NewEvent : AuditEvent → Type 0
NewEvent e = clean (obj e.details) ≡ true

-- what may become of a database
pub record Lawful (db db' : Db) : Type 0 where
  pub sessions : Evolved SessionChange NewSession db.sessions db'.sessions
  pub delegations : Evolved DelegationChange NewDelegation db.delegations db'.delegations
  pub api_keys : Evolved KeyChange NewKey db.api_keys db'.api_keys
  pub audit_events : Evolved EventChange NewEvent db.audit_events db'.audit_events

pub KeyChange-refl : (k : ApiKey) → KeyChange k k
KeyChange-refl k = record {
  id = refl;
  name = refl;
  key_id = refl;
  secret_hash = refl;
  owner_type = refl;
  owner_id = refl;
  expires_at = refl;
  revocation = inr refl;
}

pub sessions_same : (db : Db) → Evolved SessionChange NewSession db.sessions db.sessions
sessions_same db = Evolved-refl SessionChange NewSession (λ s. inl refl) db.sessions

pub delegations_same :
    (db : Db) → Evolved DelegationChange NewDelegation db.delegations db.delegations
delegations_same db = Evolved-refl DelegationChange NewDelegation (λ d. inl refl) db.delegations

pub api_keys_same : (db : Db) → Evolved KeyChange NewKey db.api_keys db.api_keys
api_keys_same db = Evolved-refl KeyChange NewKey KeyChange-refl db.api_keys

pub audit_events_same : (db : Db) → Evolved EventChange NewEvent db.audit_events db.audit_events
audit_events_same db = Evolved-refl EventChange NewEvent (λ e. refl) db.audit_events

-- a change of the other tables
pub Lawful-quiet :
    {db db' : Db}
    → db'.sessions ≡ db.sessions
    → db'.delegations ≡ db.delegations
    → db'.api_keys ≡ db.api_keys
    → db'.audit_events ≡ db.audit_events
    → Lawful db db'
Lawful-quiet {db} {db'} s d k e = record {
  sessions = rw s (sessions_same db);
  delegations = rw d (delegations_same db);
  api_keys = rw k (api_keys_same db);
  audit_events = rw e (audit_events_same db);
}

pub Lawful-refl : (db : Db) → Lawful db db
Lawful-refl db = Lawful-quiet refl refl refl refl

SessionChange-trans : (a b c : Session) → SessionChange a b → SessionChange b c → SessionChange a c
SessionChange-trans a b c (inl e) (inl f) = inl (rw f e)
SessionChange-trans a b c (inl e) (inr (n, (t, f))) = inr (rw⁻¹ e n, (t, rw (f, e) refl))
SessionChange-trans a b c (inr (n, (t, e))) (inl f) = inr (n, (t, rw f e))
SessionChange-trans a b c (inr (n, (t, e))) (inr (m, (u, f))) = absurd (ground arith)

DelegationChange-trans :
    (a b c : Delegation) → DelegationChange a b → DelegationChange b c → DelegationChange a c
DelegationChange-trans a b c (inl e) (inl f) = inl (rw f e)
DelegationChange-trans a b c (inl e) (inr f) = inr (rw (f, e) refl)
DelegationChange-trans a b c (inr e) (inl f) = inr (rw f e)
DelegationChange-trans a b c (inr e) (inr f) = inr (rw (f, e) refl)

revocation_trans :
    {o p q : Option ℕ} → (o ≡ none) ⊎ (p ≡ o) → (p ≡ none) ⊎ (q ≡ p) → (o ≡ none) ⊎ (q ≡ o)
revocation_trans (inl n) later = inl n
revocation_trans (inr e) (inl n) = inl (rw⁻¹ e n)
revocation_trans (inr e) (inr f) = inr (rw f e)

NewSession-SessionChange : (s s' : Session) → NewSession s → SessionChange s s' → NewSession s'
NewSession-SessionChange s s' new (inl e) = rw e new
NewSession-SessionChange s s' new (inr (n, (t, e))) = rw e new

KeyChange-trans : (a b c : ApiKey) → KeyChange a b → KeyChange b c → KeyChange a c
KeyChange-trans a b c r r' = record {
  id = rw r'.id r.id;
  name = rw r'.name r.name;
  key_id = rw r'.key_id r.key_id;
  secret_hash = rw r'.secret_hash r.secret_hash;
  owner_type = rw r'.owner_type r.owner_type;
  owner_id = rw r'.owner_id r.owner_id;
  expires_at = rw r'.expires_at r.expires_at;
  revocation = revocation_trans r.revocation r'.revocation;
}

-- one change after another
pub Lawful-trans : {a b c : Db} → Lawful a b → Lawful b c → Lawful a c
Lawful-trans x y = record {
  sessions =
      Evolved-trans SessionChange NewSession NewSession-SessionChange SessionChange-trans x.sessions
        y.sessions;
  delegations =
      Evolved-trans DelegationChange NewDelegation (λ d d' new r. tt) DelegationChange-trans
        x.delegations y.delegations;
  api_keys =
      Evolved-trans KeyChange NewKey (λ k k' new r. rw r.owner_type new) KeyChange-trans x.api_keys
        y.api_keys;
  audit_events =
      Evolved-trans EventChange NewEvent (λ e e' new r. rw r new) (λ a b c r r'. rw r' r)
        x.audit_events y.audit_events;
}
