-- ===== src/Gateway/Service/Guarded.antt =====
-- agentid/gateway/services/mcp_service.py: what a call may send, and when.
use agentid_mcp_gateway.Prelude.{
  String, Bool, true, false, Option, some, List, [], ◌∷◌, ◌++◌, ◌≡◌, ◌⊎◌, inl, inr, refl,
  if◌then◌else◌,
}
use agentid_mcp_gateway.Context.{RequestContext, with_tool}
use agentid_mcp_gateway.Errors.{Result, ok, raise, error, integrity_error, python_error, ErrorKind}
use agentid_mcp_gateway.Errors.Exec.{Exec, continue}
use agentid_mcp_gateway.Json.{Fields}
use agentid_mcp_gateway.Authorization.Decisions.{Decision, is_allowed}
use agentid_mcp_gateway.Credentials.Manager.{ResolvedCredential}
use agentid_mcp_gateway.Gateway.Proxy.{
  ProxyResponse, Sent, is_error, downstream_error_message, request_of, read_answer,
}
use agentid_mcp_gateway.Gateway.Router.{Route, resolve_route}
use agentid_mcp_gateway.Gateway.Service.{
  World, Service, Moment, CallOutcome, audit, handled, resolving, posting, finish, forward, execute,
  refuse, decide, decision_for, routed, call_tool, db_of, failure,
}

-- the context of an authorized call: it runs as the account that the decision names
abbrev pub running_as : RequestContext → Decision → RequestContext
running_as ctx decision = record ctx { service_account_id = decision.service_account_id }

-- What an authorized call may post, if anything: the request of its route, with the headers of a
-- credential that was resolved for the identity of the decision.
pub data Posted (svc : Service) (m : Moment) (ctx : RequestContext) (decision : Decision)
    (route : Route) (arguments : Fields) (before : World) (sent : List Sent) : Type 0 where
  quiet : sent ≡ before.sent → Posted svc m ctx decision route arguments before sent
  posted :
      (credential : ResolvedCredential)
      → is_allowed decision ≡ true
      → (resolving svc m (running_as ctx decision) route before).0 ≡ ok credential
      → sent ≡ before.sent ++ request_of route arguments credential.headers ctx.request_id ∷ []
      → Posted svc m ctx decision route arguments before sent

-- a continuation that sends nothing
sent-continue :
    {A B : Type 0} (r : Result A) (g : A → Exec World B) (w : World)
    → ((a : A) → (g a w).1.sent ≡ w.sent)
    → (continue r g w).1.sent ≡ w.sent
sent-continue (ok a) g w kept = kept a
sent-continue (raise e) g w kept = refl

-- the same after a handler that sends nothing
sent-handled :
    {A B : Type 0} (r : Result A) (handler : ErrorKind → String → World → World)
    (g : A → Exec World B) (w : World)
    → ((kind : ErrorKind) (code : String) (v : World) → (handler kind code v).sent ≡ v.sent)
    → ((a : A) (v : World) → (g a v).1.sent ≡ v.sent)
    → (continue r g (handled r handler w)).1.sent ≡ w.sent
unfolding handled
sent-handled (ok a) handler g w still kept = kept a w
sent-handled (raise (error kind code)) handler g w still kept = still kind code w
sent-handled (raise integrity_error) handler g w still kept = refl
sent-handled (raise (python_error name)) handler g w still kept = refl

module _ (svc : Service) (m : Moment) (ctx : RequestContext) (decision : Decision) (route : Route)
    (arguments : Fields) where
  sent-finish :
      (credential : ResolvedCredential) (response : ProxyResponse) (w : World)
      → (finish svc m ctx decision route credential arguments response w).1.sent ≡ w.sent
  unfolding finish audit
  sent-finish credential response w = sent-continue (is_error response) _ w (λ failed.
      sent-continue (downstream_error_message svc.credentials.library.to_text response) _ w
        (λ message. refl))

  sent-forward :
      (credential : ResolvedCredential) (w : World)
      → (forward svc m ctx decision route arguments credential w).1.sent
        ≡ w.sent ++ request_of route arguments credential.headers ctx.request_id ∷ []
  unfolding forward posting audit
  sent-forward credential w =
      sent-handled
        (read_answer
          (svc.client w.sent (request_of route arguments credential.headers ctx.request_id)))
        _ (finish svc m ctx decision route credential arguments)
        (record w {
          sent = w.sent ++ request_of route arguments credential.headers ctx.request_id ∷ [];
        })
        (λ kind code v. refl) (λ response v. sent-finish credential response v)

module _ (svc : Service) (m : Moment) (ctx : RequestContext) (decision : Decision) (route : Route)
    (arguments : Fields) where
  -- the run of an authorized call, by the result of the resolution of its credential
  Posted-execute :
      is_allowed decision ≡ true
      → (w : World)
      → Posted svc m ctx decision route arguments w
          (execute svc m (running_as ctx decision) decision route arguments w).1.sent
  unfolding execute audit handled resolving
  Posted-execute allowed w =
      by_result (resolving svc m ctx' route w).0 (resolving svc m ctx' route w).1 refl refl
    where
      ctx' : RequestContext
      ctx' = running_as ctx decision

      handler : ErrorKind → String → World → World
      handler kind code = audit m.now ctx' "error" (failure svc m kind code)

      by_result :
          (r : Result ResolvedCredential) (w' : World)
          → (resolving svc m ctx' route w).0 ≡ r
          → w'.sent ≡ w.sent
          → Posted svc m ctx decision route arguments w
              (continue r
                (forward svc m ctx' decision route arguments)
                (handled r handler w')).1.sent
      by_result (ok credential) w' e same =
          posted credential allowed e
            (rw (sent-forward svc m ctx' decision route arguments credential w', same) refl)
      by_result (raise (error kind code)) w' e same = quiet same
      by_result (raise integrity_error) w' e same = quiet same
      by_result (raise (python_error name)) w' e same = quiet same

  Posted-decide :
      (w : World)
      → Posted svc m ctx decision route arguments w
          (decide svc m ctx decision route arguments w).1.sent
  unfolding decide refuse audit
  Posted-decide w = by_decision (is_allowed decision) refl
    where
      by_decision :
          (b : Bool)
          → is_allowed decision ≡ b
          → Posted svc m ctx decision route arguments w
              ((if b
                  then execute svc m (running_as ctx decision) decision route arguments
                  else refuse m ctx decision)
                w).1.sent
      by_decision true e = Posted-execute e w
      by_decision false e = quiet refl

-- A call posts nothing, or exactly one request; and that one only where its route was resolved, its
-- caller was authorized for the tool by the engine, and a credential was resolved for the identity
-- that the decision names. The request carries the headers of that credential.
pub call_tool-Posted :
    (svc : Service) (m : Moment) (ctx : RequestContext) (tool_name : String) (arguments : Fields)
    (server_hint service_account resource : Option String) (w : World)
    → ((call_tool svc m ctx tool_name arguments server_hint service_account resource w).1.sent
        ≡ w.sent)
      ⊎ ((route : Route) × (resolve_route (db_of w) tool_name server_hint ≡ ok route)
          × Posted svc m
              (routed ctx route resource)
              (decision_for (routed ctx route resource) route service_account w)
              route
              arguments
              w
              (call_tool svc m ctx tool_name arguments server_hint service_account resource
                w).1.sent)
unfolding call_tool handled audit
call_tool-Posted svc m ctx tool_name arguments server_hint service_account resource w =
    by_route (resolve_route (db_of w) tool_name server_hint) refl
  where
    handler : ErrorKind → String → World → World
    handler kind code =
        audit m.now (with_tool server_hint (some tool_name) resource ctx) "deny"
          (failure svc m kind code)

    rest : Route → Exec World CallOutcome
    rest route v =
        decide svc m (routed ctx route resource)
          (decision_for (routed ctx route resource) route service_account v) route arguments v

    by_route :
        (r : Result Route)
        → resolve_route (db_of w) tool_name server_hint ≡ r
        → ((continue r rest (handled r handler w)).1.sent ≡ w.sent)
          ⊎ ((route : Route) × (resolve_route (db_of w) tool_name server_hint ≡ ok route)
              × Posted svc m
                  (routed ctx route resource)
                  (decision_for (routed ctx route resource) route service_account w)
                  route
                  arguments
                  w
                  (continue r rest (handled r handler w)).1.sent)
    by_route (ok route) e = inr (
      route,
      e,
      Posted-decide svc m (routed ctx route resource)
          (decision_for (routed ctx route resource) route service_account w) route arguments w,
    )
    by_route (raise (error kind code)) e = inl refl
    by_route (raise integrity_error) e = inl refl
    by_route (raise (python_error name)) e = inl refl
