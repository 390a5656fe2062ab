-- ===== src/Gateway/Service.antt =====
-- agentid/gateway/services/mcp_service.py: the life of one call of a tool. What it changes is the
-- world: the database with the audit trail, the cache of secrets, and the requests that were posted.
pub mod Audited
pub mod Guarded
use agentid_mcp_gateway.Prelude.{
  ℕ, String, Bool, true, false, not, Option, none, some, List, [], ◌∷◌, ◌++◌, ◌==◌, length,
  if◌then◌else◌,
}
use agentid_mcp_gateway.Context.{RequestContext, with_tool}
use agentid_mcp_gateway.Errors.{
  Result, ok, raise, error, integrity_error, python_error, ErrorKind, status_code,
}
use agentid_mcp_gateway.Errors.Exec.{Exec, ◌>>=◌, ◌>>◌, pure, throw, reading, gets, modify}
use agentid_mcp_gateway.Json.{Fields, Value, num, str, arr, obj, end, field, append, texts, keys}
use agentid_mcp_gateway.Models.{Db}
use agentid_mcp_gateway.Audit.Events.{Extra, no_extra, log}
use agentid_mcp_gateway.Authorization.Decisions.{Decision, is_allowed, reason_value, to_dict}
use agentid_mcp_gateway.Authorization.Engine.{authorize_tool}
use agentid_mcp_gateway.Authorization.Permissions.{sorted}
use agentid_mcp_gateway.Credentials.Manager.{
  Manager, Holdings, ResolvedCredential, resolve, audit_fields,
}
use agentid_mcp_gateway.Gateway.Router.{Route, resolve_route}
use agentid_mcp_gateway.Gateway.Proxy.{
  Sent, Client, ProxyResponse, request_of, read_answer, is_error, downstream_error_message,
}

pub record World : Type 0 where
  pub holdings : Holdings
  pub sent : List Sent

-- The collaborators of the service; `message` gives the text of an exception with a code.
pub record Service : Type 0 where
  pub credentials : Manager
  pub client : Client
  pub message : String → String

-- What is given to one call beside its arguments: the time, the random id of its token, and the
-- milliseconds that had passed when its event was written.
pub record Moment : Type 0 where
  pub now : ℕ
  pub jti : String
  pub elapsed : ℕ

pub record CallOutcome : Type 0 where
  pub decision : Decision
  pub route : Route
  pub response : ProxyResponse
  pub latency_ms : ℕ

abbrev pub db_of : World → Db
db_of w = w.holdings.db

-- `self.audit.log(db, ctx, action=Action.TOOL_CALL, ...)`
unfoldable pub audit : ℕ → RequestContext → String → Extra → World → World
audit now ctx decision extra w = record w {
  holdings = record w.holdings { db = log now ctx "mcp.call" decision extra w.holdings.db };
}

-- `self.credentials.resolve`, and `client.post` with the reading of the answer
unfoldable pub resolving : Service → Moment → RequestContext → Route → Exec World ResolvedCredential
resolving svc m ctx route w =
    let (r, h) = resolve svc.credentials m.now m.jti ctx route.server w.holdings in
    (r, record w { holdings = h })

unfoldable pub posting : Service → Sent → Exec World ProxyResponse
posting svc request w =
    (read_answer (svc.client w.sent request), record w { sent = w.sent ++ request ∷ [] })

-- `try: ... except AgentIDError as exc: ...; raise`
unfoldable pub handled :
    {A : Type 0} → Result A → (ErrorKind → String → World → World) → World → World
handled (ok a) handler w = w
handled (raise (error kind code)) handler w = handler kind code w
handled (raise integrity_error) handler w = w
handled (raise (python_error name)) handler w = w

abbrev pub guarded :
    {A : Type 0} → Exec World A → (ErrorKind → String → World → World) → Exec World A
guarded f handler w = let (r, w') = f w in (r, handled r handler w')

-- the keyword arguments of the event of a failure
abbrev pub failure : Service → Moment → ErrorKind → String → Extra
failure svc m kind code = record no_extra {
  reason = some code;
  error = some (svc.message code);
  status_code = some (status_code kind);
  latency_ms = some m.elapsed;
}

-- `_summarise_arguments`
unfoldable pub summarise_arguments : Fields → Fields
summarise_arguments arguments =
    field "keys" (arr (texts (sorted (keys arguments))))
      (field "count" (num (length (keys arguments))) end)

-- the event of a call that was forwarded
abbrev pub forwarded_extra :
    Moment → Decision → ResolvedCredential → ProxyResponse → Fields → Bool → Option String → Extra
forwarded_extra m decision credential response arguments failed message = record {
  reason = some (if failed then "downstream_error" else reason_value decision.reason);
  policy = decision.policy;
  status_code = some response.status_code;
  latency_ms = some m.elapsed;
  error = message;
  details =
      append (audit_fields credential)
        (field "arguments" (obj (summarise_arguments arguments)) end);
}

abbrev pub outcome_value : Bool → String
outcome_value failed = if failed then "error" else "allow"

-- 5. Audit.
unfoldable pub finish :
    Service
    → Moment
    → RequestContext
    → Decision
    → Route
    → ResolvedCredential
    → Fields
    → ProxyResponse
    → Exec World CallOutcome
finish svc m ctx decision route credential arguments response =
    reading (λ w. is_error response) >>= λ failed.
    reading (λ w. downstream_error_message svc.credentials.library.to_text response) >>= λ message.
    modify (
      audit m.now ctx (outcome_value failed)
        (forwarded_extra m decision credential response arguments failed message))
    >> pure
        record { decision = decision; route = route; response = response; latency_ms = m.elapsed }

-- 4. Forward.
unfoldable pub forward :
    Service
    → Moment
    → RequestContext
    → Decision
    → Route
    → Fields
    → ResolvedCredential
    → Exec World CallOutcome
forward svc m ctx decision route arguments credential =
    guarded (posting svc (request_of route arguments credential.headers ctx.request_id))
      (λ kind code. audit m.now ctx "error" (record (failure svc m kind code) {
        policy = decision.policy;
        details = audit_fields credential;
      }))
    >>= finish svc m ctx decision route credential arguments

-- 3. Resolve the downstream credential.
unfoldable pub execute :
    Service → Moment → RequestContext → Decision → Route → Fields → Exec World CallOutcome
execute svc m ctx decision route arguments =
    guarded (resolving svc m ctx route)
      (λ kind code. audit m.now ctx "error" (failure svc m kind code))
    >>= forward svc m ctx decision route arguments

-- the refusal of a call
unfoldable pub refuse : Moment → RequestContext → Decision → Exec World CallOutcome
refuse m ctx decision =
    modify (
      audit m.now ctx "deny" (record no_extra {
        reason = some (reason_value decision.reason);
        policy = decision.policy;
        status_code = some 403;
        latency_ms = some m.elapsed;
        details = to_dict decision;
      }))
    >> throw ErrorKind.authorization_error (reason_value decision.reason)

-- 2. Authorize.
unfoldable pub decide :
    Service → Moment → RequestContext → Decision → Route → Fields → Exec World CallOutcome
decide svc m ctx decision route arguments =
    if is_allowed decision
    then execute svc m (record ctx { service_account_id = decision.service_account_id }) decision
        route arguments
    else refuse m ctx decision

unfoldable pub decision_for : RequestContext → Route → Option String → World → Decision
decision_for ctx route requested w =
    authorize_tool w.holdings.db ctx route.tool route.server requested

-- the context once the route is known
abbrev pub routed : RequestContext → Route → Option String → RequestContext
routed ctx route resource =
    with_tool (some route.server.name) (some route.tool.qualified_name) resource ctx

unfoldable pub call_tool :
    Service
    → Moment
    → RequestContext
    → String
    → Fields
    → Option String
    → Option String
    → Option String
    → Exec World CallOutcome
call_tool svc m ctx tool_name arguments server_hint service_account resource =
    guarded (reading (λ (w : World). resolve_route w.holdings.db tool_name server_hint))
      (λ kind code.
        audit m.now (with_tool server_hint (some tool_name) resource ctx) "deny"
          (failure svc m kind code))
    >>= λ route.
        gets (decision_for (routed ctx route resource) route service_account) >>= λ decision.
        decide svc m (routed ctx route resource) decision route arguments
