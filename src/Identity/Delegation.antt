-- ===== src/Identity/Delegation.antt =====
-- agentid/identity/delegation.py: a user's identity, exchanged for a token that an agent presents.
use agentid_mcp_gateway.Prelude.{
  ℕ, ◌+◌, ◌<◌, String, Bool, true, false, not, ◌&&◌, Option, none, some, List, [], ◌∷◌, ◌++◌, ◌==◌,
  ◌≡◌, refl, arith, leb, is_empty, truthy, find_first, select, update_where, length, join,
  Option-cases, inl, inr, if◌then◌else◌,
}
use agentid_mcp_gateway.Config.{Settings}
use agentid_mcp_gateway.Context.{part}
use agentid_mcp_gateway.Errors.{
  Result, ok, raise, error, ErrorKind, ◌>>=◌, ◌>>◌, raise_if, >>=-eq-ok,
}
use agentid_mcp_gateway.Jwt.{Payload}
use agentid_mcp_gateway.Models.{Db, User, Agent, AgentKind, Delegation, Persona}
use agentid_mcp_gateway.Identity.Agents.{require_agent, user_may_delegate_to}
use agentid_mcp_gateway.Identity.Sessions.{seconds, ttl_or}
use agentid_mcp_gateway.Identity.Tokens.{delegated_payload, scope_claim}

pub record DelegationResult : Type 0 where
  pub token : Payload
  pub delegation : Delegation
  pub expires_at : ℕ
  pub agent : Agent

abbrev pub is_autonomous : AgentKind → Bool
is_autonomous AgentKind.autonomous = true
is_autonomous AgentKind.delegated = false

-- the checks of `delegate`, which come before it writes anything
unfoldable pub delegation_target : Db → User → String → Result Agent
delegation_target db user agent_identifier = do
  agent ← require_agent db agent_identifier
  raise_if (not agent.is_active) ErrorKind.delegation_error "agent_disabled"
  raise_if (is_autonomous agent.kind) ErrorKind.persona_violation "autonomous_agent_delegation"
  raise_if (not (user_may_delegate_to db user.id agent.id)) ErrorKind.delegation_error
      "delegation_not_granted"
  ok agent

-- The ids of the new row and of the new token are given, and two readings of the clock: one for the
-- row, and a later one for the token.
unfoldable pub issue_delegation :
    Settings
    → ℕ
    → ℕ
    → String
    → String
    → User
    → Agent
    → Option String
    → List String
    → Option ℕ
    → Db
    → DelegationResult × Db
issue_delegation s now later fresh jti user agent session_id scopes ttl_seconds db =
    let ttl = ttl_or ttl_seconds s.delegated_token_ttl_seconds in
    let record_row : Delegation = record {
      id = fresh;
      jti = jti;
      user_id = user.id;
      agent_id = agent.id;
      session_id = session_id;
      scope = scope_claim scopes;
      expires_at = now + seconds ttl;
      revoked = false;
    } in
    (
      record {
        token =
            delegated_payload s later jti user.id agent.id session_id (some fresh) scopes
              (some ttl);
        delegation = record_row;
        expires_at = now + seconds ttl;
        agent = agent;
      },
      record db { delegations = db.delegations ++ record_row ∷ [] },
    )

unfoldable pub delegate :
    Settings
    → ℕ
    → ℕ
    → String
    → String
    → User
    → String
    → Option String
    → List String
    → Option ℕ
    → Db
    → Result (DelegationResult × Db)
delegate s now later fresh jti user agent_identifier session_id scopes ttl_seconds db = do
  agent ← delegation_target db user agent_identifier
  ok (issue_delegation s now later fresh jti user agent session_id scopes ttl_seconds db)

unfoldable pub get_delegation : Db → String → Option Delegation
get_delegation db delegation_id =
    find_first (λ (d : Delegation). d.id == delegation_id) db.delegations

unfoldable pub require_active_delegation : ℕ → Db → String → Result Delegation
require_active_delegation now db delegation_id = elim (get_delegation db delegation_id) [
  | none ↦ raise (error ErrorKind.delegation_error "unknown_delegation")
  | some d ↦ do
    raise_if d.revoked ErrorKind.delegation_error "delegation_revoked"
    raise_if (leb d.expires_at now) ErrorKind.delegation_error "delegation_expired"
    ok d
]

abbrev mark_revoked : Delegation → Delegation
mark_revoked d = record d { revoked = true }

unfoldable pub revoke_delegation : String → Db → Db
revoke_delegation delegation_id db = record db {
  delegations =
      update_where (λ (d : Delegation). d.id == delegation_id) mark_revoked db.delegations;
}

-- The number of delegations that were revoked comes first.
unfoldable pub revoke_delegations_for_user : String → Db → ℕ × Db
revoke_delegations_for_user user_id db =
    let live = λ (d : Delegation). d.user_id == user_id && not d.revoked in
    (
      length (select live db.delegations),
      record db { delegations = update_where live mark_revoked db.delegations },
    )

unfoldable pub describe_chain : Option String → Option String → Option String → String
describe_chain user_id agent_id service_account_id =
    let ps = part user_id ++ part agent_id ++ part service_account_id in
    if is_empty ps then "anonymous" else join " -> " ps

-- An agent alone is never a user persona.
pub persona_for : Option String → Persona
persona_for user_id = if truthy user_id then Persona.user else Persona.non_user

pub delegation_target_sound :
    (db : Db) (user : User) (identifier : String) {a : Agent}
    → delegation_target db user identifier ≡ ok a
    → (require_agent db identifier ≡ ok a)
      × (a.is_active ≡ true)
      × (is_autonomous a.kind ≡ false)
      × (user_may_delegate_to db user.id a.id ≡ true)
unfolding delegation_target
delegation_target_sound db user identifier {a} h = checked (require_agent db identifier) refl
  where
    checked :
        (r : Result Agent)
        → require_agent db identifier ≡ r
        → (require_agent db identifier ≡ ok a)
          × (a.is_active ≡ true)
          × (is_autonomous a.kind ≡ false)
          × (user_may_delegate_to db user.id a.id ≡ true)
    checked (raise x) e = absurd (ground arith)
    checked (ok b) e = (ground arith, ground arith, ground arith, ground arith)

-- A user can delegate only to an agent that exists, is active, is not autonomous and is granted to
-- them; the identifier may be its id or its name.
pub delegate_sound :
    (s : Settings) (now later : ℕ) (fresh jti : String) (user : User) (identifier : String)
    (session_id : Option String) (scopes : List String) (ttl : Option ℕ) (db : Db)
    {r : DelegationResult} {db' : Db}
    → delegate s now later fresh jti user identifier session_id scopes ttl db ≡ ok (r, db')
    → (require_agent db identifier ≡ ok r.agent)
      × (r.agent.is_active ≡ true)
      × (is_autonomous r.agent.kind ≡ false)
      × (user_may_delegate_to db user.id r.agent.id ≡ true)
      × (r.token.sub ≡ user.id)
      × (r.token.act_sub ≡ some r.agent.id)
unfolding delegate issue_delegation delegated_payload
delegate_sound s now later fresh jti user identifier session_id scopes ttl db {r} h =
    let (a, target, e) = >>=-eq-ok (delegation_target db user identifier) _ h in
    let (found, active, kind, granted) = delegation_target_sound db user identifier target in
    (ground arith, ground arith, ground arith, ground arith, ground arith, ground arith)

-- A required delegation is the stored one, not revoked and not expired.
pub require_active_delegation_sound :
    (now : ℕ) (db : Db) (i : String) {d : Delegation}
    → require_active_delegation now db i ≡ ok d
    → (get_delegation db i ≡ some d) × (d.revoked ≡ false) × (now < d.expires_at)
unfolding require_active_delegation
require_active_delegation_sound now db i h = elim (Option-cases (get_delegation db i)) [
  | inl e ↦ absurd (ground arith)
  | inr (d', e) ↦ (ground arith, ground arith, ground arith)
]
