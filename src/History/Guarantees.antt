-- ===== src/History/Guarantees.antt =====
-- What follows from the ledger for any requests that the gateway serves: what is revoked stays revoked, and
-- the audit trail is only added to.
use agentid_mcp_gateway.Prelude.{
  ℕ, String, Bool, true, false, Option, some, List, ◌++◌, ◌==◌, ◌≡◌, ◌≢◌, inl, inr, refl, arith,
}
use agentid_mcp_gateway.Context.{RequestContext}
use agentid_mcp_gateway.Errors.{ok, raise_if, ErrorKind, ◌>>◌, >>=-eq-ok}
use agentid_mcp_gateway.Models.{
  Db, Session, Delegation, ApiKey, AuditEvent, session_is_active, api_key_is_active,
}
use agentid_mcp_gateway.Identity.ApiKeys.{find_key, parse_api_key, verify_api_key}
use agentid_mcp_gateway.Identity.Delegation.{get_delegation}
use agentid_mcp_gateway.Identity.Sessions.{get_session, require_active_session}
use agentid_mcp_gateway.Identity.Tokens.{TokenClaims, downstream, is_delegated}
use agentid_mcp_gateway.Gateway.App.{Gateway, Arrival, Running, database, settings_of}
use agentid_mcp_gateway.Gateway.App.Routes.{serve_all}
use agentid_mcp_gateway.Gateway.Auth.{check_session, from_claims, subject_context}
use agentid_mcp_gateway.Gateway.Auth.Personas.{from_claims_revoked_delegation}
use agentid_mcp_gateway.Gateway.Commands.{Command}
use agentid_mcp_gateway.Gateway.Login.Admitted.{check_session-inactive}
use agentid_mcp_gateway.History.Evolution.{
  Every, Every-Evolved, Evolved-append-only, find_first-Evolved,
}
use agentid_mcp_gateway.History.Ledger.{
  SessionChange, NewSession, DelegationChange, NewDelegation, KeyChange, NewKey, NewEvent,
}
use agentid_mcp_gateway.History.Requests.{Lawful-serve_all}

SessionChange-id : (s s' : Session) → SessionChange s s' → s'.id ≡ s.id
SessionChange-id s s' (inl e) = rw e refl
SessionChange-id s s' (inr (n, (t, e))) = rw e refl

SessionChange-revoked :
    (s s' : Session) (t : ℕ) → s.revoked_at ≡ some t → SessionChange s s' → s'.revoked_at ≡ some t
SessionChange-revoked s s' t h (inl e) = rw e h
SessionChange-revoked s s' t h (inr (n, e)) = absurd (ground arith)

DelegationChange-id : (d d' : Delegation) → DelegationChange d d' → d'.id ≡ d.id
DelegationChange-id d d' (inl e) = rw e refl
DelegationChange-id d d' (inr e) = rw e refl

DelegationChange-revoked :
    (d d' : Delegation) → d.revoked ≡ true → DelegationChange d d' → d'.revoked ≡ true
DelegationChange-revoked d d' h (inl e) = rw e h
DelegationChange-revoked d d' h (inr e) = rw e refl

KeyChange-revoked :
    (k k' : ApiKey) (t : ℕ) → k.revoked_at ≡ some t → KeyChange k k' → k'.revoked_at ≡ some t
KeyChange-revoked k k' t h change = elim change.revocation [
  | inl n ↦ absurd (ground (arith, n))
  | inr e ↦ rw e h
]

module _ (g : Gateway) (requests : List (Arrival × Command)) (s : Running) where
  -- a session that is revoked is found revoked
  session_after :
      (i : String) {x : Session} {t : ℕ}
      → get_session (database s) i ≡ some x
      → x.revoked_at ≡ some t
      → (y : Session) × (get_session (database (serve_all g requests s)) i ≡ some y)
        × (y.revoked_at ≡ some t)
  unfolding get_session
  session_after i {x} {t} found revoked =
      let (y, now_found, change) =
        find_first-Evolved SessionChange NewSession (λ (z : Session). z.id == i)
          (λ a b r. rw (SessionChange-id a b r) refl) (Lawful-serve_all g requests s).sessions
          found in
      (y, now_found, SessionChange-revoked x y t revoked change)

  -- Once a session is revoked, no token of it is ever accepted again, whatever requests the gateway serves
  -- in between and whatever the time is.
  pub revoked_session_forever :
      (i : String) (x : Session) (t now : ℕ) (claims : TokenClaims) (rid : String)
      (client : Option String) (ctx : RequestContext)
      → get_session (database s) i ≡ some x
      → x.revoked_at ≡ some t
      → claims.session_id ≡ some i
      → (i == "") ≡ false
      → from_claims now (database (serve_all g requests s)) claims rid client ≢ ok ctx
  unfolding from_claims require_active_session session_is_active
  revoked_session_forever i x t now claims rid client ctx found revoked named given h =
      let db' = database (serve_all g requests s) in
      let (y, now_found, still) = session_after i found revoked in
      let (_, _, rest) =
        >>=-eq-ok
          (raise_if (claims.token_type == downstream) ErrorKind.authentication_error
            "wrong_token_type")
          (λ _. check_session now db' claims >> subject_context now db' claims rid client) h in
      let (_, passed, _) =
        >>=-eq-ok (check_session now db' claims) (λ _. subject_context now db' claims rid client)
          rest in
      check_session-inactive now db' claims i named given (λ z e. ground (arith, now_found, still))
        passed

  -- Once a delegation is revoked, no token of it is ever accepted again, whatever requests the gateway serves
  -- in between and whatever the time is.
  pub revoked_delegation_forever :
      (i : String) (d : Delegation) (now : ℕ) (claims : TokenClaims) (rid : String)
      (client : Option String) (ctx : RequestContext)
      → get_delegation (database s) i ≡ some d
      → d.revoked ≡ true
      → is_delegated claims ≡ true
      → claims.delegation_id ≡ some i
      → (i == "") ≡ false
      → from_claims now (database (serve_all g requests s)) claims rid client ≢ ok ctx
  unfolding get_delegation
  revoked_delegation_forever i d now claims rid client ctx found revoked acts named given =
      let (y, now_found, change) =
        find_first-Evolved DelegationChange NewDelegation (λ (z : Delegation). z.id == i)
          (λ a b r. rw (DelegationChange-id a b r) refl) (Lawful-serve_all g requests s).delegations
          found in
      from_claims_revoked_delegation now (database (serve_all g requests s)) claims rid client i y
        acts named given now_found (DelegationChange-revoked d y revoked change) ctx

  -- The audit trail is append-only: whatever requests the gateway serves, the events that were stored are still
  -- there, unchanged and in their order, and the details of each new one hold no secret under a key that names
  -- one.
  pub audit_trail_append_only :
      (new : List AuditEvent) × ((database (serve_all g requests s)).audit_events
        ≡ (database s).audit_events ++ new)
      × Every NewEvent new
  audit_trail_append_only =
      Evolved-append-only NewEvent (Lawful-serve_all g requests s).audit_events

  -- Where no stored API key belongs to a user, none ever does, whatever requests the gateway serves.
  pub no_key_of_a_user :
      Every NewKey (database s).api_keys → Every NewKey (database (serve_all g requests s)).api_keys
  no_key_of_a_user none_yet =
      Every-Evolved KeyChange NewKey (λ k k' new r. rw r.owner_type new) none_yet
        (Lawful-serve_all g requests s).api_keys

  -- Once an API key is revoked, it is never accepted again, whatever requests the gateway serves in between and
  -- whatever the time and its secret are.
  pub revoked_key_forever :
      (raw key_id secret : String) (k : ApiKey) (t now : ℕ) (check_secret : String → String → Bool)
      (r : ApiKey × Db)
      → parse_api_key (settings_of g) raw ≡ ok (key_id, secret)
      → find_key key_id (database s).api_keys ≡ some k
      → k.revoked_at ≡ some t
      → verify_api_key (settings_of g) check_secret now raw (database (serve_all g requests s))
        ≢ ok r
  unfolding verify_api_key api_key_is_active
  revoked_key_forever raw key_id secret k t now check_secret r parsed found revoked h =
      let (k', now_found, change) =
        find_first-Evolved KeyChange NewKey (λ (z : ApiKey). z.key_id == key_id)
          (λ a b c. rw c.key_id refl) (Lawful-serve_all g requests s).api_keys found in
      let still : k'.revoked_at ≡ some t = KeyChange-revoked k k' t revoked change in
      ground (arith, parsed, now_found, still)
