-- ===== src/History/Calls.antt =====
-- agentid/gateway/services/mcp_service.py and middleware/auth.py: what a call of a tool and an authentication
-- do to the ledger.
use agentid_mcp_gateway.Prelude.{
  ℕ, String, Bool, Option, none, some, refl, has_prefix, Bool-cases, inl, inr,
}
use agentid_mcp_gateway.Config.{Settings}
use agentid_mcp_gateway.Context.{RequestContext}
use agentid_mcp_gateway.Errors.{Result, ok, raise, error, integrity_error, python_error, ErrorKind}
use agentid_mcp_gateway.Errors.Exec.{Exec, ◌>>=◌, continue, reading}
use agentid_mcp_gateway.Errors.Holds.{Holds->>=, Holds->>=-Holds}
use agentid_mcp_gateway.Json.{Fields}
use agentid_mcp_gateway.Jwt.{Jwt}
use agentid_mcp_gateway.Models.{Db}
use agentid_mcp_gateway.Audit.Events.{Extra}
use agentid_mcp_gateway.Authorization.Decisions.{Decision, is_allowed}
use agentid_mcp_gateway.Credentials.Manager.{ResolvedCredential}
use agentid_mcp_gateway.Credentials.Manager.Trail.{seen-resolve}
use agentid_mcp_gateway.Identity.ApiKeys.{verify_api_key}
use agentid_mcp_gateway.Identity.Tokens.{verify}
use agentid_mcp_gateway.Gateway.Auth.{
  authenticate, caller_of, extract_credential, from_api_key, from_claims, from_token, owner_context,
}
use agentid_mcp_gateway.Gateway.Proxy.{
  ProxyResponse, is_error, downstream_error_message, request_of,
}
use agentid_mcp_gateway.Gateway.Router.{Route, resolve_route}
use agentid_mcp_gateway.Gateway.Service.{
  World, Service, Moment, audit, handled, guarded, resolving, posting, finish, forward, execute,
  refuse, decide, decision_for, routed, call_tool, db_of,
}
use agentid_mcp_gateway.History.Accounts.{Leaves}
use agentid_mcp_gateway.History.Ledger.{Lawful, Lawful-quiet, Lawful-refl, Lawful-trans}
use agentid_mcp_gateway.History.Sessions.{Lawful-log, Lawful-verify_api_key}

-- one world after another
abbrev Lawfully : World → World → Type 0
Lawfully w w' = Lawful (db_of w) (db_of w')

Lawfully-audit :
    (now : ℕ) (ctx : RequestContext) (decision : String) (extra : Extra) (w : World)
    → Lawfully w (audit now ctx decision extra w)
unfolding audit
Lawfully-audit now ctx decision extra w = Lawful-log now ctx "mcp.call" decision extra (db_of w)

-- what follows a step, after any result of it
Lawfully-continue :
    {A B : Type 0} (r : Result A) (g : A → Exec World B) (w : World)
    → ((a : A) → Lawfully w (g a w).1)
    → Lawfully w (continue r g w).1
Lawfully-continue (ok a) g w rest = rest a
Lawfully-continue (raise e) g w rest = Lawful-refl (db_of w)

module _ {A B : Type 0} (f : Exec World A) (handler : ErrorKind → String → World → World)
    (g : A → Exec World B) where
  Lawfully-guarded :
      ((w : World) → Lawfully w (f w).1)
      → ((kind : ErrorKind) (code : String) (w : World) → Lawfully w (handler kind code w))
      → ((a : A) (w : World) → Lawfully w (g a w).1)
      → (w : World) → Lawfully w ((guarded f handler >>= g) w).1
  unfolding handled
  Lawfully-guarded step handling rest w = by_result (f w).0 (f w).1 (step w)
    where
      by_result :
          (r : Result A) (w' : World)
          → Lawfully w w'
          → Lawfully w (continue r g (handled r handler w')).1
      by_result (ok a) w' before = Lawful-trans before (rest a w')
      by_result (raise (error kind code)) w' before = Lawful-trans before (handling kind code w')
      by_result (raise integrity_error) w' before = before
      by_result (raise (python_error name)) w' before = before

module _ (svc : Service) (m : Moment) (ctx : RequestContext) (decision : Decision) (route : Route)
    (arguments : Fields) where
  Lawfully-finish :
      (credential : ResolvedCredential) (response : ProxyResponse) (w : World)
      → Lawfully w (finish svc m ctx decision route credential arguments response w).1
  unfolding finish
  Lawfully-finish credential response w = Lawfully-continue (is_error response) _ w (λ failed.
      Lawfully-continue (downstream_error_message svc.credentials.library.to_text response) _ w
        (λ message. Lawfully-audit _ _ _ _ w))

  Lawfully-forward :
      (credential : ResolvedCredential) (w : World)
      → Lawfully w (forward svc m ctx decision route arguments credential w).1
  unfolding forward posting
  Lawfully-forward credential w =
      Lawfully-guarded (posting svc (request_of route arguments credential.headers ctx.request_id))
        _ (finish svc m ctx decision route credential arguments) (λ v. Lawful-refl (db_of v))
        (λ kind code. Lawfully-audit _ _ _ _) (Lawfully-finish credential) w

  Lawfully-resolving : (w : World) → Lawfully w (resolving svc m ctx route w).1
  unfolding resolving
  Lawfully-resolving w =
      Lawful-quiet
        (seen-resolve (λ db. db.sessions) (λ db cs. refl) svc.credentials m.now m.jti ctx
          route.server w.holdings)
        (seen-resolve (λ db. db.delegations) (λ db cs. refl) svc.credentials m.now m.jti ctx
          route.server w.holdings)
        (seen-resolve (λ db. db.api_keys) (λ db cs. refl) svc.credentials m.now m.jti ctx
          route.server w.holdings)
        (seen-resolve (λ db. db.audit_events) (λ db cs. refl) svc.credentials m.now m.jti ctx
          route.server w.holdings)

  Lawfully-execute : (w : World) → Lawfully w (execute svc m ctx decision route arguments w).1
  unfolding execute
  Lawfully-execute w =
      Lawfully-guarded (resolving svc m ctx route) _ (forward svc m ctx decision route arguments)
        Lawfully-resolving (λ kind code. Lawfully-audit _ _ _ _) Lawfully-forward w

Lawfully-decide :
    (svc : Service) (m : Moment) (ctx : RequestContext) (decision : Decision) (route : Route)
    (arguments : Fields) (w : World)
    → Lawfully w (decide svc m ctx decision route arguments w).1
unfolding decide refuse
Lawfully-decide svc m ctx decision route arguments w = elim (Bool-cases (is_allowed decision)) [
  | inl e ↦ rw e (
      Lawfully-execute svc m (record ctx { service_account_id = decision.service_account_id })
        decision route arguments w)
  | inr e ↦ rw e (Lawfully-audit _ _ _ _ w)
]

-- a call of a tool, however it ends
pub Lawful-call_tool :
    (svc : Service) (m : Moment) (ctx : RequestContext) (tool_name : String) (arguments : Fields)
    (server_hint service_account resource : Option String) (w : World)
    → Lawful
        (db_of w)
        (db_of (call_tool svc m ctx tool_name arguments server_hint service_account resource w).1)
unfolding call_tool
Lawful-call_tool svc m ctx tool_name arguments server_hint service_account resource =
    Lawfully-guarded (reading (λ v. resolve_route v.holdings.db tool_name server_hint)) _ _
      (λ v. Lawful-refl (db_of v)) (λ kind code. Lawfully-audit _ _ _ _)
      (λ route v.
        Lawfully-decide svc m (routed ctx route resource)
          (decision_for (routed ctx route resource) route service_account v) route arguments v)

module _ (jwt : Jwt) (check_secret : String → String → Bool) (now : ℕ) (db : Db)
    (request_id : String) (client : Option String) (s : Settings) where
  Leaves-from_api_key :
      (raw : String)
      → Leaves db RequestContext (from_api_key check_secret now db raw request_id client s)
  unfolding from_api_key
  Leaves-from_api_key raw =
      Holds->>=-Holds _ _ (verify_api_key s check_secret now raw db) _
        (Lawful-verify_api_key s check_secret now raw db)
        (λ r lawful. Holds->>= _ (owner_context r.1 r.0 request_id client) _ (λ ctx. lawful))

  Leaves-from_token :
      (raw : String) → Leaves db RequestContext (from_token jwt now db raw request_id client s)
  Leaves-from_token raw = Holds->>= _ (verify jwt s now raw none) _ (λ claims.
      Holds->>= _ (from_claims now db claims request_id client) _ (λ ctx. Lawful-refl db))

  Leaves-caller_of :
      (credential : Option String)
      → Leaves db RequestContext (caller_of jwt check_secret now db request_id client s credential)
  unfolding caller_of
  Leaves-caller_of none = tt
  Leaves-caller_of (some raw) = elim (Bool-cases (has_prefix s.api_key_prefix raw)) [
    | inl e ↦ rw e (Leaves-from_api_key raw)
    | inr e ↦ rw e (Leaves-from_token raw)
  ]

  -- the authentication of a request
  pub Leaves-authenticate :
      (authorization api_key_header : Option String)
      → Leaves db RequestContext
          (authenticate jwt check_secret now db authorization api_key_header request_id client s)
  unfolding authenticate
  Leaves-authenticate authorization api_key_header =
      Holds->>= _ (extract_credential authorization api_key_header s) _ Leaves-caller_of
