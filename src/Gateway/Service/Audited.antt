-- ===== src/Gateway/Service/Audited.antt =====
-- agentid/gateway/services/mcp_service.py: the audit trail of a call.
use agentid_mcp_gateway.Prelude.{
  ℕ, suc, String, Bool, true, false, Option, [], ◌∷◌, ◌≡◌, refl, arith, length, length-append,
  if◌then◌else◌,
}
use agentid_mcp_gateway.Context.{RequestContext}
use agentid_mcp_gateway.Errors.{Result, ok, raise, error, integrity_error, python_error, ErrorKind}
use agentid_mcp_gateway.Errors.Exec.{Exec, ◌>>=◌, continue, reading}
use agentid_mcp_gateway.Json.{Fields}
use agentid_mcp_gateway.Audit.Events.{Extra, log, write_event}
use agentid_mcp_gateway.Authorization.Decisions.{Decision, is_allowed}
use agentid_mcp_gateway.Credentials.Manager.{ResolvedCredential}
use agentid_mcp_gateway.Credentials.Manager.Trail.{events-resolve}
use agentid_mcp_gateway.Gateway.Proxy.{
  ProxyResponse, is_error, downstream_error_message, request_of,
}
use agentid_mcp_gateway.Gateway.Proxy.Malformed.{own, own-is_error, own-downstream_error_message}
use agentid_mcp_gateway.Gateway.Router.{Route, resolve_route}
use agentid_mcp_gateway.Gateway.Service.{
  World, Service, Moment, audit, handled, guarded, resolving, posting, finish, forward, execute,
  refuse, decide, decision_for, routed, call_tool, db_of,
}

abbrev count : World → ℕ
count w = length (db_of w).audit_events

-- an exception that is no `AgentIDError`
abbrev pub unexpected : {A : Type 0} → Result A → Bool
unexpected (ok a) = false
unexpected (raise (error kind code)) = false
unexpected (raise integrity_error) = true
unexpected (raise (python_error name)) = true

-- the number of events after a call that ends in a result: one more, but none after a surprise
abbrev pub recorded : {A : Type 0} → Result A → ℕ → ℕ
recorded r n = if unexpected r then n else suc n

count-audit :
    (now : ℕ) (ctx : RequestContext) (decision : String) (extra : Extra) (w : World)
    → count (audit now ctx decision extra w) ≡ suc (count w)
unfolding audit log write_event
count-audit now ctx decision extra w = omega (arith, length-append (db_of w).audit_events (_ ∷ []))

-- A guarded step that writes no event, with a handler and a continuation that record theirs.
module _ {A B : Type 0} (f : Exec World A) (handler : ErrorKind → String → World → World)
    (g : A → Exec World B) where
  count-guarded :
      ((w : World) → count (f w).1 ≡ count w)
      → ((kind : ErrorKind) (code : String) (w : World)
          → count (handler kind code w) ≡ suc (count w))
      → ((a : A) (w : World) → count (g a w).1 ≡ recorded (g a w).0 (count w))
      → (w : World)
      → count ((guarded f handler >>= g) w).1 ≡ recorded ((guarded f handler >>= g) w).0 (count w)
  unfolding handled
  count-guarded kept one_handler rest w = by_result (f w).0 (f w).1 (kept w)
    where
      by_result :
          (r : Result A) (w' : World)
          → count w' ≡ count w
          → count (continue r g (handled r handler w')).1
            ≡ recorded (continue r g (handled r handler w')).0 (count w)
      by_result (ok a) w' same = rw⁻¹ same (rest a w')
      by_result (raise (error kind code)) w' same = rw (one_handler kind code w', same) refl
      by_result (raise integrity_error) w' same = same
      by_result (raise (python_error name)) w' same = same

-- a reading that raises none of the program's own exceptions, and what follows it
count-read :
    {A B : Type 0} (r : Result A) (g : A → Exec World B) (w : World)
    → own r ≡ false
    → ((a : A) → count (g a w).1 ≡ recorded (g a w).0 (count w))
    → count (continue r g w).1 ≡ recorded (continue r g w).0 (count w)
count-read (ok a) g w calm rest = rest a
count-read (raise (error kind code)) g w calm rest = absurd (ground arith)
count-read (raise integrity_error) g w calm rest = refl
count-read (raise (python_error name)) g w calm rest = refl

module _ (svc : Service) (m : Moment) (ctx : RequestContext) (decision : Decision) (route : Route)
    (arguments : Fields) where
  count-finish :
      (credential : ResolvedCredential) (response : ProxyResponse) (w : World)
      → count (finish svc m ctx decision route credential arguments response w).1
        ≡ recorded (finish svc m ctx decision route credential arguments response w).0 (count w)
  unfolding finish
  count-finish credential response w =
      count-read (is_error response) _ w (own-is_error response) (λ failed.
        count-read (downstream_error_message svc.credentials.library.to_text response) _ w
          (own-downstream_error_message svc.credentials.library.to_text response)
          (λ message. count-audit _ _ _ _ w))

  count-forward :
      (credential : ResolvedCredential) (w : World)
      → count (forward svc m ctx decision route arguments credential w).1
        ≡ recorded (forward svc m ctx decision route arguments credential w).0 (count w)
  unfolding forward posting
  count-forward credential w =
      count-guarded (posting svc (request_of route arguments credential.headers ctx.request_id)) _
        (finish svc m ctx decision route credential arguments) (λ v. refl)
        (λ kind code. count-audit _ _ _ _) (count-finish credential) w

  count-resolving : (w : World) → count (resolving svc m ctx route w).1 ≡ count w
  unfolding resolving
  count-resolving w =
      rw (events-resolve svc.credentials m.now m.jti ctx route.server w.holdings) refl

  count-execute :
      (w : World)
      → count (execute svc m ctx decision route arguments w).1
        ≡ recorded (execute svc m ctx decision route arguments w).0 (count w)
  unfolding execute
  count-execute w =
      count-guarded (resolving svc m ctx route) _ (forward svc m ctx decision route arguments)
        count-resolving (λ kind code. count-audit _ _ _ _) count-forward w

count-decide :
    (svc : Service) (m : Moment) (ctx : RequestContext) (decision : Decision) (route : Route)
    (arguments : Fields) (w : World)
    → count (decide svc m ctx decision route arguments w).1
      ≡ recorded (decide svc m ctx decision route arguments w).0 (count w)
unfolding decide refuse
count-decide svc m ctx decision route arguments w = by_decision (is_allowed decision)
  where
    ctx' : RequestContext
    ctx' = record ctx { service_account_id = decision.service_account_id }

    by_decision :
        (b : Bool)
        → count
            ((if b then execute svc m ctx' decision route arguments else refuse m ctx decision) w).1
          ≡ recorded
              ((if b then execute svc m ctx' decision route arguments else refuse m ctx decision)
                w).0
              (count w)
    by_decision true = count-execute svc m ctx' decision route arguments w
    by_decision false = count-audit _ _ _ _ w

-- However a call ends, allowed, denied or failed, it has written exactly one audit event; only where it
-- ends in an exception that is none of the program's own has it written none.
pub call_tool_events :
    (svc : Service) (m : Moment) (ctx : RequestContext) (tool_name : String) (arguments : Fields)
    (server_hint service_account resource : Option String) (w : World)
    → length
        (db_of
          (call_tool svc m ctx tool_name arguments server_hint service_account resource
            w).1).audit_events
      ≡ recorded
          (call_tool svc m ctx tool_name arguments server_hint service_account resource w).0
          (length (db_of w).audit_events)
unfolding call_tool
call_tool_events svc m ctx tool_name arguments server_hint service_account resource =
    count-guarded (reading (λ v. resolve_route v.holdings.db tool_name server_hint)) _ _ (λ v. refl)
      (λ kind code. count-audit _ _ _ _)
      (λ route v.
        count-decide svc m (routed ctx route resource)
          (decision_for (routed ctx route resource) route service_account v) route arguments v)
