-- ===== src/Gateway/Auth/Refusals.antt =====
-- agentid/gateway/middleware/auth.py: the exceptions that authentication raises.
use agentid_mcp_gateway.Prelude.{
  ℕ, String, Bool, leb, not, Option, none, some, ◌==◌, ◌≡◌, refl, truthy, lower, partition,
  has_prefix, strip_prefix, ◌||◌,
}
use agentid_mcp_gateway.Config.{Settings}
use agentid_mcp_gateway.Context.{text_of}
use agentid_mcp_gateway.Errors.{Result, raise, Exception, ErrorKind, ◌>>◌, raise_if}
use agentid_mcp_gateway.Errors.Fails.{
  Denied, Fails, Fails-raise, Fails->>=, Fails-raise_if, Fails-if, Fails-option, Denied-identity,
  Denied-persona, Denied-delegation,
}
use agentid_mcp_gateway.Jwt.{Jwt}
use agentid_mcp_gateway.Models.{Db, ApiKey, IdentityType, api_key_is_active, session_is_active}
use agentid_mcp_gateway.Identity.Agents.{get_agent}
use agentid_mcp_gateway.Identity.ApiKeys.{
  verify_api_key, parse_api_key, check_key, find_key, split_key,
}
use agentid_mcp_gateway.Identity.Delegation.{
  require_active_delegation, get_delegation, is_autonomous,
}
use agentid_mcp_gateway.Identity.Sessions.{require_active_session, get_session}
use agentid_mcp_gateway.Identity.Tokens.{
  TokenClaims, verify, is_delegated, downstream, Fails-verify,
}
use agentid_mcp_gateway.Identity.Users.{get_user}
use agentid_mcp_gateway.Gateway.Auth.{
  is_user_persona, extract_credential, active_user, active_agent, check_session, check_delegation,
  delegated_context, user_context, agent_context, account_context, subject_context, from_claims,
  owner_context, from_api_key, caller_of, authenticate,
}

Fails-extract_credential : (h k : Option String) (s : Settings) → Fails (extract_credential h k s)
unfolding extract_credential
Fails-extract_credential h k s = Fails-if (truthy k) _ _ tt (
    Fails-if (not (truthy h)) _ _ tt (
      Fails-if ((partition b' ' (text_of h)).1 == "") _ _ tt (
        Fails-if (not (lower (partition b' ' (text_of h)).0 == "bearer")) _ _
          (Denied-identity "unsupported_scheme") tt)))

Fails-active_user : (db : Db) (i : String) → Fails (active_user db i)
Fails-active_user db i =
    Fails-option (get_user db i) _ _ (Denied-identity "user_disabled")
      (λ u. Fails-if u.is_active _ _ tt (Denied-identity "user_disabled"))

Fails-active_agent : (db : Db) (i : String) → Fails (active_agent db i)
Fails-active_agent db i =
    Fails-option (get_agent db i) _ _ (Denied-identity "agent_disabled")
      (λ a. Fails-if a.is_active _ _ tt (Denied-identity "agent_disabled"))

Fails-check_session :
    (now : ℕ) (db : Db) (claims : TokenClaims) → Fails (check_session now db claims)
unfolding check_session require_active_session
Fails-check_session now db claims =
    Fails-if (truthy claims.session_id) _ _
      (Fails->>= (require_active_session now db (text_of claims.session_id)) _
        (Fails-option (get_session db (text_of claims.session_id)) _ _
          (Denied-identity "unknown_session")
          (λ x. Fails-if (session_is_active now x) _ _ tt (Denied-identity "session_inactive")))
        (λ x. tt))
      tt

Fails-check_delegation :
    (now : ℕ) (db : Db) (claims : TokenClaims) → Fails (check_delegation now db claims)
unfolding check_delegation require_active_delegation
Fails-check_delegation now db claims =
    Fails-if (truthy claims.delegation_id) _ _
      (Fails->>= (require_active_delegation now db (text_of claims.delegation_id)) _
        (Fails-option (get_delegation db (text_of claims.delegation_id)) _ _
          (Denied-delegation "unknown_delegation")
          (λ d.
            Fails->>= (raise_if d.revoked _ _) _
              (Fails-raise_if d.revoked _ _ (Denied-delegation "delegation_revoked"))
              (λ _.
                Fails->>= (raise_if (leb d.expires_at now) _ _) _
                  (Fails-raise_if (leb d.expires_at now) _ _
                    (Denied-delegation "delegation_expired"))
                  (λ _. tt))))
        (λ x. tt))
      tt

-- a check on the persona, and what comes after it
Fails-persona :
    {A : Type 0} (b : Bool) (code : String) (rest : Result A)
    → Fails rest
    → Fails (raise_if b ErrorKind.persona_violation code >> rest)
Fails-persona b code rest h =
    Fails->>= (raise_if b ErrorKind.persona_violation code) _
      (Fails-raise_if b _ _ (Denied-persona code)) (λ _. h)

module _ (now : ℕ) (db : Db) (claims : TokenClaims) (rid : String) (client : Option String) where
  Fails-delegated_context : Fails (delegated_context now db claims rid client)
  unfolding delegated_context
  Fails-delegated_context =
      Fails-persona (not (is_user_persona claims.persona)) "persona_mismatch" _ (
        Fails->>= (active_user db claims.sub) _ (Fails-active_user db claims.sub) (λ user.
          Fails->>= (active_agent db (text_of claims.act_sub)) _
            (Fails-active_agent db (text_of claims.act_sub))
            (λ agent. Fails-persona (is_autonomous agent.kind) "autonomous_agent_delegation" _ (
              Fails->>= (check_delegation now db claims) _ (Fails-check_delegation now db claims)
                (λ _. tt)))))

  Fails-subject_context : Fails (subject_context now db claims rid client)
  unfolding subject_context user_context agent_context account_context
  Fails-subject_context = Fails-if (is_delegated claims) _ _ Fails-delegated_context (
      Fails-if (claims.subject_type == "user") _ _
        (Fails-persona (not (is_user_persona claims.persona)) "persona_mismatch" _
          (Fails->>= (active_user db claims.sub) _ (Fails-active_user db claims.sub) (λ user. tt)))
        (Fails-if (claims.subject_type == "agent") _ _
          (Fails-persona (is_user_persona claims.persona) "persona_mismatch" _ (
            Fails->>= (active_agent db claims.sub) _ (Fails-active_agent db claims.sub)
              (λ agent. tt)))
          (Fails-if (claims.subject_type == "service_account") _ _
            (Fails-persona (is_user_persona claims.persona) "persona_mismatch" _ tt)
            (Denied-identity "unsupported_subject"))))

  Fails-from_claims : Fails (from_claims now db claims rid client)
  unfolding from_claims
  Fails-from_claims =
      Fails->>= (raise_if (claims.token_type == downstream) _ _) _
        (Fails-raise_if (claims.token_type == downstream) _ _ (Denied-identity "wrong_token_type"))
        (λ _.
          Fails->>= (check_session now db claims) _ (Fails-check_session now db claims)
            (λ _. Fails-subject_context))

Fails-check_key :
    (verify : String → String → Bool) (now : ℕ) (secret : String) (o : Option ApiKey)
    → Fails (check_key verify now secret o)
Fails-check_key verify now secret none = Denied-identity "invalid_api_key"
Fails-check_key verify now secret (some k) =
    Fails->>= (raise_if (not (verify secret k.secret_hash)) _ _) _
      (Fails-raise_if (not (verify secret k.secret_hash)) _ _ (Denied-identity "invalid_api_key"))
      (λ _.
        Fails->>= (raise_if (not (api_key_is_active now k)) _ _) _
          (Fails-raise_if (not (api_key_is_active now k)) _ _ (Denied-identity "api_key_inactive"))
          (λ _. tt))

Fails-parse_api_key : (s : Settings) (raw : String) → Fails (parse_api_key s raw)
unfolding parse_api_key
Fails-parse_api_key s raw = by_body (strip_prefix s.api_key_prefix raw)
  where
    by_body : (o : Option String) → Fails (split_key o)
    by_body none = Denied-identity "invalid_api_key"
    by_body (some body) =
        Fails-if ((partition b'.' body).0 == "" || (partition b'.' body).1 == "") _ _
          (Denied-identity "invalid_api_key") tt

Fails-owner_context :
    (db : Db) (key : ApiKey) (rid : String) (client : Option String)
    → Fails (owner_context db key rid client)
unfolding owner_context
Fails-owner_context db key rid client = by_type key.owner_type refl
  where
    by_type : (t : IdentityType) → key.owner_type ≡ t → Fails (owner_context db key rid client)
    by_type IdentityType.agent e =
        rw (Fails, e)
          (Fails->>= (active_agent db key.owner_id) _ (Fails-active_agent db key.owner_id)
            (λ a. tt))
    by_type IdentityType.service_account e = rw (Fails, e) tt
    by_type IdentityType.user e = rw (Fails, e) (Denied-identity "api_key_persona_violation")
    by_type IdentityType.gateway e = rw (Fails, e) (Denied-identity "api_key_persona_violation")

module _ (jwt : Jwt) (check_secret : String → String → Bool) (now : ℕ) (db : Db) where
  Fails-from_api_key :
      (raw rid : String) (client : Option String) (s : Settings)
      → Fails (from_api_key check_secret now db raw rid client s)
  unfolding from_api_key verify_api_key
  Fails-from_api_key raw rid client s =
      Fails->>= (verify_api_key s check_secret now raw db) _
        (Fails->>= (parse_api_key s raw) _ (Fails-parse_api_key s raw) (λ parsed.
          Fails->>= (check_key check_secret now parsed.1 (find_key parsed.0 db.api_keys)) _
            (Fails-check_key check_secret now parsed.1 (find_key parsed.0 db.api_keys)) (λ k. tt)))
        (λ r.
          Fails->>= (owner_context r.1 r.0 rid client) _ (Fails-owner_context r.1 r.0 rid client)
            (λ ctx. tt))

  Fails-caller_of :
      (rid : String) (client : Option String) (s : Settings) (raw : Option String)
      → Fails (caller_of jwt check_secret now db rid client s raw)
  unfolding caller_of
  Fails-caller_of rid client s none = Denied-identity "missing_credential"
  Fails-caller_of rid client s (some raw) =
      Fails-if (has_prefix s.api_key_prefix raw) _ _ (Fails-from_api_key raw rid client s) (
        Fails->>= (verify jwt s now raw none) _ (Fails-verify jwt s now raw none) (λ claims.
          Fails->>= (from_claims now db claims rid client) _
            (Fails-from_claims now db claims rid client) (λ ctx. tt)))

  -- Where authentication fails, the exception is one of the program that is answered with a 401 or a 403.
  pub Fails-authenticate :
      (authorization api_key_header : Option String) (rid : String) (client : Option String)
      (s : Settings) (e : Exception)
      → authenticate jwt check_secret now db authorization api_key_header rid client s ≡ raise e
      → Denied e
  unfolding authenticate
  Fails-authenticate authorization api_key_header rid client s e =
      Fails-raise (authenticate jwt check_secret now db authorization api_key_header rid client s) e
        (Fails->>= (extract_credential authorization api_key_header s) _
          (Fails-extract_credential authorization api_key_header s) (Fails-caller_of rid client s))
