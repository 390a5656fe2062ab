-- ===== src/Identity/Agents.antt =====
-- agentid/identity/agents.py: agents, and the grants by which a user lets an agent act for them.
-- The unique constraint on user and agent leaves one row for a pair, so a write to the row that a
-- query finds is a write to the rows of the pair.
use agentid_mcp_gateway.Prelude.{
  ℕ, String, Bool, true, false, ◌&&◌, Option, none, some, List, [], ◌∷◌, ◌++◌, ◌==◌, ◌≡◌, refl,
  arith, eq_iff, map, is_some, is_none, contains, find_first, select, update_where, if◌then◌else◌,
  Option-cases, Bool-cases, inl, inr, find_first-append, find_first-update_where, find_first-passes,
  written, &&-eq-true,
}
use agentid_mcp_gateway.Errors.{Result, ok, raise, error, ErrorKind, ◌>>=◌, ◌>>◌, raise_if}
use agentid_mcp_gateway.Models.{Db, Agent, AgentKind, UserAgentGrant}
use agentid_mcp_gateway.Identity.Users.{resolve_some_roles}

unfoldable pub get_agent : Db → String → Option Agent
get_agent db agent_id = find_first (λ (a : Agent). a.id == agent_id) db.agents

unfoldable pub get_agent_by_name : Db → String → Option Agent
get_agent_by_name db name = find_first (λ (a : Agent). a.name == name) db.agents

-- by id, or else by name
unfoldable pub resolve_agent : Db → String → Option Agent
resolve_agent db identifier = elim (get_agent db identifier) [
  | some a ↦ some a
  | none ↦ get_agent_by_name db identifier
]

unfoldable pub require_agent : Db → String → Result Agent
unfolding resolve_agent
require_agent db identifier = elim (resolve_agent db identifier) [
  | some a ↦ ok a
  | none ↦ raise (error ErrorKind.not_found_error "unknown_agent")
]

unfoldable pub create_agent :
    String
    → String
    → AgentKind
    → Option String
    → Option String
    → List String
    → Db
    → Result (Agent × Db)
create_agent fresh name kind description owner_user_id roles db = do
  raise_if (is_some (get_agent_by_name db name)) ErrorKind.conflict_error "agent_exists"
  ids ← resolve_some_roles db roles
  let agent : Agent = record {
    id = fresh;
    name = name;
    description = description;
    kind = kind;
    owner_user_id = owner_user_id;
    is_active = true;
    roles = ids;
  }
  ok (agent, record db { agents = db.agents ++ agent ∷ [] })

-- the row of the pair
abbrev is_grant : String → String → UserAgentGrant → Bool
is_grant user_id agent_id g = g.user_id == user_id && g.agent_id == agent_id

-- `_find_grant`
find_grant : String → String → List UserAgentGrant → Option UserAgentGrant
find_grant user_id agent_id = find_first (is_grant user_id agent_id)

new_grant : String → String → Option String → UserAgentGrant
new_grant user_id agent_id scopes = record {
  user_id = user_id;
  agent_id = agent_id;
  scopes = scopes;
  revoked_at = none;
}

grant_rows : String → String → Option String → List UserAgentGrant → List UserAgentGrant
unfolding new_grant find_grant
grant_rows user_id agent_id scopes gs =
    if is_some (find_grant user_id agent_id gs)
    then update_where (is_grant user_id agent_id)
        (λ g. record g { revoked_at = none; scopes = scopes }) gs
    else gs ++ new_grant user_id agent_id scopes ∷ []

unfoldable pub grant_agent_to_user : String → String → Option String → Db → Db
unfolding grant_rows
grant_agent_to_user user_id agent_id scopes db = record db {
  user_agent_grants = grant_rows user_id agent_id scopes db.user_agent_grants;
}

unfoldable pub revoke_agent_from_user : ℕ → String → String → Db → Db
revoke_agent_from_user now user_id agent_id db = record db {
  user_agent_grants =
      update_where (is_grant user_id agent_id) (λ g. record g { revoked_at = some now })
        db.user_agent_grants;
}

abbrev unrevoked : Option UserAgentGrant → Bool
unrevoked none = false
unrevoked (some g) = is_none g.revoked_at

-- Delegation needs an explicit grant that is not revoked. Ownership is not read.
unfoldable pub user_may_delegate_to : Db → String → String → Bool
unfolding find_grant
user_may_delegate_to db user_id agent_id =
    unrevoked (find_grant user_id agent_id db.user_agent_grants)

pub list_user_agents : Db → String → List Agent
list_user_agents db user_id =
    let rows =
      select (λ (g : UserAgentGrant). g.user_id == user_id && is_none g.revoked_at)
        db.user_agent_grants in
    let ids = map (λ (g : UserAgentGrant). g.agent_id) rows in
    select (λ (a : Agent). contains a.id ids) db.agents

module _ (u a : String) where
  unrevoked-grant_rows_self :
      (scopes : Option String) (gs : List UserAgentGrant)
      → unrevoked (find_grant u a (grant_rows u a scopes gs)) ≡ true
  unfolding grant_rows
  unrevoked-grant_rows_self scopes gs = elim (Option-cases (find_grant u a gs)) [
    | inl e ↦
        rw (e, find_first-append (is_grant u a) gs (new_grant u a scopes ∷ []), e)
          (ground (arith, eq_iff u u, eq_iff a a))
    | inr (g, e) ↦
        rw
          (
            e,
            find_first-update_where (is_grant u a) (is_grant u a)
                (λ g. record g { revoked_at = none; scopes = scopes }) (λ x. refl) gs,
            e,
            find_first-passes (is_grant u a) gs e,
          )
          refl
  ]

module _ (u a u' a' : String) (other : (u == u' && a == a') ≡ false) where
  other_row : (g : UserAgentGrant) → is_grant u' a' g ≡ true → is_grant u a g ≡ false
  other_row g h = ground (
    arith,
    eq_iff g.user_id u,
    eq_iff g.user_id u',
    eq_iff g.agent_id a,
    eq_iff g.agent_id a',
    eq_iff u u',
    eq_iff a a',
  )

  written_other :
      (f : UserAgentGrant → UserAgentGrant) (gs : List UserAgentGrant)
      → written (is_grant u a) f (find_grant u' a' gs) ≡ find_grant u' a' gs
  unfolding find_grant
  written_other f gs = elim (Option-cases (find_first (is_grant u' a') gs)) [
    | inl e ↦ rw e refl
    | inr (g, e) ↦ rw (e, other_row g (find_first-passes (is_grant u' a') gs e)) refl
  ]

  grant_rows_other :
      (scopes : Option String) (gs : List UserAgentGrant)
      → find_grant u' a' (grant_rows u a scopes gs) ≡ find_grant u' a' gs
  unfolding grant_rows
  grant_rows_other scopes gs = elim (Option-cases (find_grant u a gs)) [
    | inl e ↦
        rw (e, find_first-append (is_grant u' a') gs (new_grant u a scopes ∷ []), other)
          (ground arith)
    | inr (g, e) ↦
        rw
          (
            e,
            find_first-update_where (is_grant u a) (is_grant u' a')
                (λ g. record g { revoked_at = none; scopes = scopes }) (λ x. refl) gs,
          )
          (written_other (λ g. record g { revoked_at = none; scopes = scopes }) gs)
  ]

module _ (u a u' a' : String) where
  -- A grant lets exactly its user delegate to exactly its agent, and leaves the other pairs.
  pub user_may_delegate_to-grant :
      (scopes : Option String) (db : Db)
      → user_may_delegate_to (grant_agent_to_user u a scopes db) u' a'
        ≡ (if u == u' && a == a' then true else user_may_delegate_to db u' a')
  unfolding user_may_delegate_to grant_agent_to_user
  user_may_delegate_to-grant scopes db = elim (Bool-cases (u == u' && a == a')) [
    | inl same ↦
        let (e, f) = &&-eq-true (u == u') (a == a') same in
        rw same (
          rw (← (eq_iff u u').0 e, ← (eq_iff a a').0 f)
            (unrevoked-grant_rows_self u a scopes db.user_agent_grants))
    | inr other ↦ rw (other, grant_rows_other u a u' a' other scopes db.user_agent_grants) refl
  ]

  -- A revocation takes that away from exactly the same pair.
  pub user_may_delegate_to-revoke :
      (now : ℕ) (db : Db)
      → user_may_delegate_to (revoke_agent_from_user now u a db) u' a'
        ≡ (if u == u' && a == a' then false else user_may_delegate_to db u' a')
  unfolding user_may_delegate_to revoke_agent_from_user
  user_may_delegate_to-revoke now db =
      rw
        (find_first-update_where (is_grant u a) (is_grant u' a')
          (λ g. record g { revoked_at = some now }) (λ x. refl) db.user_agent_grants)
        (revoked_row (find_grant u' a' db.user_agent_grants) refl)
    where
      revoked_row :
          (o : Option UserAgentGrant)
          → find_grant u' a' db.user_agent_grants ≡ o
          → unrevoked (written (is_grant u a) (λ g. record g { revoked_at = some now }) o)
            ≡ (if u == u' && a == a' then false else unrevoked o)
      revoked_row none e = ground arith
      revoked_row (some g) e = ground (
        arith,
        find_first-passes (is_grant u' a') db.user_agent_grants e,
        eq_iff g.user_id u,
        eq_iff g.user_id u',
        eq_iff g.agent_id a,
        eq_iff g.agent_id a',
        eq_iff u u',
        eq_iff a a',
      )
