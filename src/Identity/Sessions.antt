-- ===== src/Identity/Sessions.antt =====
-- agentid/identity/sessions.py. `now` is the time that the code reads, in microseconds, and a ttl is
-- counted in seconds.
use agentid_mcp_gateway.Prelude.{
  ℕ, ◌+◌, ◌*◌, ◌<◌, String, false, not, ◌&&◌, Option, none, some, [], ◌∷◌, ◌++◌, ◌==◌, ◌≡◌, ◌≢◌,
  refl, arith, eq_iff, eqb, ltb, is_none, find_first, select, update_where, length, if◌then◌else◌,
  Option-cases, inl, inr, find_first-update_where, find_first-passes, written,
}
use agentid_mcp_gateway.Errors.{Result, ok, raise, error, ErrorKind}
use agentid_mcp_gateway.Models.{Db, IdentityType, Persona, Session, session_is_active}

abbrev pub seconds : ℕ → ℕ
seconds n = n * 1000000

-- `ttl_seconds or default`: a ttl of zero counts as absent
abbrev pub ttl_or : Option ℕ → ℕ → ℕ
ttl_or none default = default
ttl_or (some t) default = if eqb t 0 then default else t

unfoldable pub create_session :
    ℕ
    → ℕ
    → String
    → IdentityType
    → String
    → Persona
    → Option String
    → Option String
    → Option ℕ
    → Db
    → Session × Db
create_session now session_ttl fresh subject_type subject_id persona agent_id client ttl_seconds
      db =
    let session : Session = record {
      id = fresh;
      subject_type = subject_type;
      subject_id = subject_id;
      persona = persona;
      agent_id = agent_id;
      expires_at = now + seconds (ttl_or ttl_seconds session_ttl);
      revoked_at = none;
      client = client;
    } in
    (session, record db { sessions = db.sessions ++ session ∷ [] })

unfoldable pub get_session : Db → String → Option Session
get_session db session_id = find_first (λ (s : Session). s.id == session_id) db.sessions

unfoldable pub require_active_session : ℕ → Db → String → Result Session
require_active_session now db session_id = elim (get_session db session_id) [
  | none ↦ raise (error ErrorKind.authentication_error "unknown_session")
  | some s ↦
      if session_is_active now s
      then ok s
      else raise (error ErrorKind.authentication_error "session_inactive")
]

abbrev mark_revoked : ℕ → Session → Session
mark_revoked now s = record s { revoked_at = some now }

-- A session that is revoked already keeps the time of its revocation.
unfoldable pub revoke_session : ℕ → String → Db → Db
revoke_session now session_id db = record db {
  sessions =
      update_where (λ (s : Session). s.id == session_id)
        (λ s. if is_none s.revoked_at then mark_revoked now s else s) db.sessions;
}

-- The number of sessions that were revoked comes first.
unfoldable pub revoke_sessions_for : ℕ → String → Db → ℕ × Db
revoke_sessions_for now subject_id db =
    let live = λ (s : Session). s.subject_id == subject_id && is_none s.revoked_at in
    (
      length (select live db.sessions),
      record db { sessions = update_where live (mark_revoked now) db.sessions },
    )

pub purge_expired : ℕ → Db → ℕ × Db
purge_expired now db =
    let expired = λ (s : Session). ltb s.expires_at now in
    (
      length (select expired db.sessions),
      record db { sessions = select (λ s. not (expired s)) db.sessions },
    )

-- A required session is the stored one, is not revoked, and has not expired.
pub require_active_session_sound :
    (now : ℕ) (db : Db) (i : String) {s : Session}
    → require_active_session now db i ≡ ok s
    → (get_session db i ≡ some s) × (s.revoked_at ≡ none) × (now < s.expires_at)
unfolding require_active_session session_is_active
require_active_session_sound now db i h = elim (Option-cases (get_session db i)) [
  | inl e ↦ absurd (ground arith)
  | inr (s', e) ↦ (ground arith, ground arith, ground arith)
]

-- After a revocation the session is never active again, at any time and whatever it was before.
pub revoke_session-inactive :
    (now later : ℕ) (i : String) (db : Db) (s : Session)
    → require_active_session later (revoke_session now i db) i ≢ ok s
unfolding require_active_session revoke_session get_session session_is_active
revoke_session-inactive now later i db s h =
    revoked (find_first (λ (x : Session). x.id == i) db.sessions) refl
  where
    row : Option Session → Option Session
    row =
        written (λ (x : Session). x.id == i)
          (λ x. if is_none x.revoked_at then mark_revoked now x else x)

    found :
        find_first (λ (x : Session). x.id == i) (revoke_session now i db).sessions
        ≡ row (find_first (λ (x : Session). x.id == i) db.sessions)
    found =
        find_first-update_where (λ (x : Session). x.id == i) (λ (x : Session). x.id == i)
          (λ x. if is_none x.revoked_at then mark_revoked now x else x) (λ x. ground arith)
          db.sessions

    revoked : (o : Option Session) → find_first (λ (x : Session). x.id == i) db.sessions ≡ o → ⊥
    revoked none e = ground (arith, found)
    revoked (some x) e =
        ground (arith, found, find_first-passes (λ (x : Session). x.id == i) db.sessions e)

-- The revocation of one session leaves every other one as it is.
pub revoke_session_ne :
    (now : ℕ) (i j : String) (db : Db)
    → (i == j) ≡ false
    → get_session (revoke_session now i db) j ≡ get_session db j
unfolding get_session revoke_session
revoke_session_ne now i j db differs =
    rw
      (find_first-update_where (λ (x : Session). x.id == i) (λ (x : Session). x.id == j)
        (λ x. if is_none x.revoked_at then mark_revoked now x else x) (λ x. ground arith)
        db.sessions)
      (kept (find_first (λ (x : Session). x.id == j) db.sessions) refl)
  where
    kept :
        (o : Option Session)
        → find_first (λ (x : Session). x.id == j) db.sessions ≡ o
        → written
            (λ (x : Session). x.id == i)
            (λ x. if is_none x.revoked_at then mark_revoked now x else x)
            o
          ≡ o
    kept none e = refl
    kept (some x) e = ground (
      arith,
      find_first-passes (λ (x : Session). x.id == j) db.sessions e,
      eq_iff x.id i,
      eq_iff x.id j,
      eq_iff i j,
    )
