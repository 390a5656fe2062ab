-- ===== src/Authorization/Engine/Peeling.antt =====
-- What each step of engine.py says of a request that comes to be allowed: the step went on, its
-- condition holds, and the rest of the steps allow.
use agentid_mcp_gateway.Prelude.{
  String, Bool, true, false, not, ◌&&◌, ◌||◌, Option, none, some, ◌≡◌, refl, ◌⊎◌, inl, inr, arith,
  contains, is_empty, is_some, truthy, Bool-cases, Option-cases,
}
use mathlib.Core.Path.{◌∙◌, ap, fun_ext}
use agentid_mcp_gateway.Context.{RequestContext, text_of}
use agentid_mcp_gateway.Models.{Db, User, Agent, ServiceAccount, Tool, McpServer}
use agentid_mcp_gateway.Identity.Users.{get_user}
use agentid_mcp_gateway.Identity.Agents.{get_agent}
use agentid_mcp_gateway.Identity.ServiceAccounts.{resolve_service_account}
use agentid_mcp_gateway.Authorization.Permissions.{permits}
use agentid_mcp_gateway.Authorization.Decisions.{Decision, Base, is_allowed}
use agentid_mcp_gateway.Authorization.Engine.Steps.{
  Step, stop, go, decide, ◌>>=◌, ◌>>◌, Principals, principals_of, check_identity, check_scope,
  required_tool_scope, check_availability, resolve_user, resolve_own_account, resolve_acting_agent,
  resolve_principals, check_persona, check_denies, check_user_holds, check_agent_holds,
  is_user_persona, has_autonomous,
}

-- The steps end with the decision `d`, which allows.
abbrev pub Grants : Decision → Step Decision → Type 0
Grants d m = (is_allowed d ≡ true) × (decide m ≡ d)

-- a principal of an id that may be absent: none without an id, and otherwise an active row
abbrev pub FoundUser : Db → Option String → Option User → Type 0
FoundUser db id o =
    ((truthy id ≡ false) × (o ≡ none))
    ⊎ ((u : User) × (truthy id ≡ true)
        × (get_user db (text_of id) ≡ some u)
        × (u.is_active ≡ true)
        × (o ≡ some u))

abbrev pub FoundAgent : Db → Option String → Option Agent → Type 0
FoundAgent db id o =
    ((truthy id ≡ false) × (o ≡ none))
    ⊎ ((a : Agent) × (truthy id ≡ true)
        × (get_agent db (text_of id) ≡ some a)
        × (a.is_active ≡ true)
        × (o ≡ some a))

abbrev pub is_alone : RequestContext → Bool
is_alone ctx =
    truthy ctx.service_account_id && (not (truthy ctx.user_id) && not (truthy ctx.agent_id))

abbrev pub FoundAccount : Db → RequestContext → Option ServiceAccount → Type 0
FoundAccount db ctx o =
    ((is_alone ctx ≡ false) × (o ≡ none))
    ⊎ ((s : ServiceAccount) × (is_alone ctx ≡ true)
        × (resolve_service_account db (text_of ctx.service_account_id) ≡ some s)
        × (s.is_active ≡ true)
        × (o ≡ some s))

module _ (d : Decision) (db : Db) (ctx : RequestContext) (base : Base) where
  peel_user :
      (id : Option String) (f : Option User → Step Decision)
      → Grants d (resolve_user db id base >>= f)
      → (o : Option User) × FoundUser db id o × Grants d (f o)
  peel_user id f h = elim (Bool-cases (truthy id)) [
    | inr absent ↦ (none, inl (absent, refl), ground arith)
    | inl given ↦ elim (Option-cases (get_user db (text_of id))) [
      | inl e ↦ absurd (ground arith)
      | inr (u, e) ↦ elim (Bool-cases u.is_active) [
        | inl active ↦ (some u, inr (u, given, e, active, refl), ground arith)
        | inr off ↦ absurd (ground arith)
      ]
    ]
  ]

  peel_account :
      (f : Option ServiceAccount → Step Decision)
      → Grants d (resolve_own_account db ctx base >>= f)
      → (o : Option ServiceAccount) × FoundAccount db ctx o × Grants d (f o)
  peel_account f h = elim (Bool-cases (is_alone ctx)) [
    | inr absent ↦ (none, inl (absent, refl), ground arith)
    | inl given ↦
        elim (Option-cases (resolve_service_account db (text_of ctx.service_account_id))) [
          | inl e ↦ absurd (ground arith)
          | inr (s, e) ↦ elim (Bool-cases s.is_active) [
            | inl active ↦ (some s, inr (s, given, e, active, refl), ground arith)
            | inr off ↦ absurd (ground arith)
          ]
        ]
  ]

  peel_agent :
      (id : Option String) (f : Option Agent → Step Decision)
      → Grants d (resolve_acting_agent db id base >>= f)
      → (o : Option Agent) × FoundAgent db id o × Grants d (f o)
  peel_agent id f h = elim (Bool-cases (truthy id)) [
    | inr absent ↦ (none, inl (absent, refl), ground arith)
    | inl given ↦ elim (Option-cases (get_agent db (text_of id))) [
      | inl e ↦ absurd (ground arith)
      | inr (a, e) ↦ elim (Bool-cases a.is_active) [
        | inl active ↦ (some a, inr (a, given, e, active, refl), ground arith)
        | inr off ↦ absurd (ground arith)
      ]
    ]
  ]

step_assoc :
    {A B C : Type 0} (m : Step A) (g : A → Step B) (f : B → Step C)
    → (m >>= g >>= f) ≡ (m >>= λ a. g a >>= f)
step_assoc (stop d) g f = refl
step_assoc (go a) g f = refl

pub peel_principals :
    (d : Decision) (db : Db) (ctx : RequestContext) (base : Base) (f : Principals → Step Decision)
    → Grants d (resolve_principals db ctx base >>= f)
    → (user : Option User) × (sa : Option ServiceAccount) × (agent : Option Agent) × FoundUser db
        ctx.user_id user
      × FoundAccount db ctx sa
      × FoundAgent db ctx.agent_id agent
      × Grants d (f (principals_of db user sa agent))
unfolding resolve_principals
peel_principals d db ctx base f h =
    let h₁ : Grants d (resolve_user db ctx.user_id base >>= after_user) = rw (← assoc₁) h in
    let (user, found_user, h₂) = peel_user d db ctx base ctx.user_id after_user h₁ in
    let (sa, found_sa, h₃) = peel_account d db ctx base (after_account user) h₂ in
    let (agent, found_agent, h₄) = peel_agent d db ctx base ctx.agent_id (after_agent user sa) h₃ in
    (user, sa, agent, found_user, found_sa, found_agent, h₄)
  where
    after_agent : Option User → Option ServiceAccount → Option Agent → Step Decision
    after_agent user sa agent = f (principals_of db user sa agent)

    after_account : Option User → Option ServiceAccount → Step Decision
    after_account user sa = resolve_acting_agent db ctx.agent_id base >>= after_agent user sa

    after_user : Option User → Step Decision
    after_user user = resolve_own_account db ctx base >>= after_account user

    assoc₁ :
        (resolve_principals db ctx base >>= f) ≡ (resolve_user db ctx.user_id base >>= after_user)
    assoc₁ =
        step_assoc (resolve_user db ctx.user_id base) _ f
        ∙ ap (◌>>=◌ (resolve_user db ctx.user_id base)) (
            fun_ext λ user.
              step_assoc (resolve_own_account db ctx base) _ f
              ∙ ap (◌>>=◌ (resolve_own_account db ctx base))
                  (fun_ext λ sa. step_assoc (resolve_acting_agent db ctx.agent_id base) _ f))

module _ (d : Decision) (ctx : RequestContext) (base : Base) (m : Step Decision) where
  pub peel_identity : Grants d (check_identity ctx >> m) → Grants d m
  unfolding check_identity
  peel_identity h = ground arith

  pub peel_scope :
      Grants d (check_scope ctx base >> m)
      → ((is_empty ctx.scopes || contains required_tool_scope ctx.scopes) ≡ true) × Grants d m
  unfolding check_scope
  peel_scope h = ground arith

  pub peel_availability :
      (tool : Tool) (server : McpServer)
      → Grants d (check_availability tool server base >> m)
      → (tool.enabled ≡ true) × (server.enabled ≡ true) × Grants d m
  unfolding check_availability
  peel_availability tool server h = ground arith

  pub peel_persona :
      (p : Principals)
      → Grants d (check_persona ctx p base >> m)
      → (is_user_persona ctx.persona ≡ is_some ctx.user_id)
        × ((has_autonomous p.agent && is_some ctx.user_id) ≡ false)
        × Grants d m
  unfolding check_persona
  peel_persona p h = ground arith

  pub peel_denies :
      (q : String) (p : Principals) → Grants d (check_denies q base p >> m) → Grants d m
  unfolding check_denies
  peel_denies q p h = ground arith

  pub peel_user_holds :
      (q : String) (p : Principals)
      → Grants d (check_user_holds q base p >> m)
      → ((is_some p.user && not (permits p.user_permissions q)) ≡ false) × Grants d m
  unfolding check_user_holds
  peel_user_holds q p h = ground arith

  pub peel_agent_holds :
      (q : String) (p : Principals)
      → Grants d (check_agent_holds q base p >> m)
      → ((is_some p.agent && not (permits p.agent_permissions q)) ≡ false) × Grants d m
  unfolding check_agent_holds
  peel_agent_holds q p h = ground arith
