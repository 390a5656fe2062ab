-- ===== src/Gateway/App.antt =====
-- agentid/gateway/main.py, deps.py, middleware/context.py, api/mcp.py, and how the routes of
-- agentid/gateway/api use their session of the database: one request, from its headers to its response.
pub mod Routes
pub mod Access
use agentid_mcp_gateway.Prelude.{
  ℕ, zero, suc, String, Bool, true, false, Option, none, some, List, [], ◌∷◌, ◌==◌, ◌+++◌, eqb, map,
  length, select, contains, truthy, if◌then◌else◌,
}
use agentid_mcp_gateway.Config.{Settings}
use agentid_mcp_gateway.Context.{RequestContext, text_of}
use agentid_mcp_gateway.Errors.{
  Result, ok, raise, error, integrity_error, python_error, Exception, ◌>>=◌, status_code,
}
use agentid_mcp_gateway.Jwt.{Jwt}
use agentid_mcp_gateway.Models.{Db, AuditEvent}
use agentid_mcp_gateway.Credentials.Manager.{Holdings}
use agentid_mcp_gateway.Gateway.Auth.{authenticate}
use agentid_mcp_gateway.Gateway.Commands.{Reply}
use agentid_mcp_gateway.Gateway.Deps.{rate_limit_key, require_admin}
use agentid_mcp_gateway.Gateway.RateLimit.{RateLimiter, check}
use agentid_mcp_gateway.Gateway.Service.{Service, World, db_of}

-- The collaborators of `create_app`, the hashing of secrets and passwords, the text of an exception, and the
-- order of the ids of events of one time.
pub record Gateway : Type 0 where
  pub service : Service
  pub check_secret : String → String → Bool
  pub check_password : String → Option String → Bool
  pub hash_secret : String → String
  pub hash_password : String → String
  pub message : Exception → String
  pub tie : AuditEvent → AuditEvent → Bool

-- What arrives with a request: its headers and its client, the readings of the two clocks, the milliseconds
-- that a call takes, and the random ids that are drawn for it.
pub record Arrival : Type 0 where
  pub request_id_header : Option String
  pub authorization : Option String
  pub x_api_key : Option String
  pub client : Option String
  pub now : ℕ
  pub later : ℕ
  pub monotonic : ℕ
  pub elapsed : ℕ
  pub drawn_request_id : String
  pub drawn : ℕ → String

-- The state of the gateway: what is committed to the database, the cache of secrets, the requests that were
-- posted, and the counters of the rate limits.
pub record Running : Type 0 where
  pub world : World
  pub limiter : RateLimiter

abbrev pub settings_of : Gateway → Settings
settings_of g = g.service.credentials.settings

abbrev pub jwt_of : Gateway → Jwt
jwt_of g = g.service.credentials.jwt

abbrev pub database : Running → Db
database s = db_of s.world

abbrev pub with_holdings : Holdings → Running → Running
with_holdings h s = record s { world = record s.world { holdings = h } }

abbrev pub with_db : Db → Running → Running
with_db db s = with_holdings (record s.world.holdings { db = db }) s

-- `RequestIdMiddleware`: the id that the caller sent, or a new one
abbrev pub request_id_of : Arrival → String
request_id_of a =
    if truthy a.request_id_header
    then text_of a.request_id_header
    else "req_" +++ a.drawn_request_id

-- the unit that the rate limit takes from an authenticated caller
abbrev pub limited :
    Arrival
    → Result (RequestContext × Db)
    → RateLimiter
    → Result (RequestContext × Db) × RateLimiter
limited a (raise e) l = (raise e, l)
limited a (ok (ctx, db)) l =
    let (r, l') = check a.monotonic (rate_limit_key ctx) l in (r >>= λ units. ok (ctx, db), l')

-- `current_context`: the context, and the database as the session of the request sees it
unfoldable pub current_context :
    Gateway → Arrival → Running → Result (RequestContext × Db) × RateLimiter
current_context g a s =
    limited a
      (authenticate (jwt_of g) g.check_secret a.now (database s) a.authorization a.x_api_key
        (request_id_of a) a.client (settings_of g))
      s.limiter

-- A route of a caller, by what it does with the session of the database. It has the context and the database
-- as the session sees it; what it does not commit is lost.
pub data Route : Type 0 where
  -- it does not commit
  reads : (RequestContext → Db → Result Reply) → Route
  -- it commits at its end, which an exception does not reach
  writes : (RequestContext → Db → Result (Reply × Db)) → Route
  -- the same, with the cache of the credential manager
  writes_holdings : (RequestContext → Holdings → Result (Reply × Holdings)) → Route
  -- it commits in a `finally`
  commits : (RequestContext → World → Result Reply × World) → Route

abbrev pub committed : Result (Reply × Db) → Running → Result Reply × Running
committed (raise e) s = (raise e, s)
committed (ok (reply, db)) s = (ok reply, with_db db s)

abbrev pub kept_holdings : Result (Reply × Holdings) → Running → Result Reply × Running
kept_holdings (raise e) s = (raise e, s)
kept_holdings (ok (reply, h)) s = (ok reply, with_holdings h s)

unfoldable pub run_route : Route → RequestContext → Db → Running → Result Reply × Running
run_route (reads f) ctx db s = (f ctx db, s)
run_route (writes f) ctx db s = committed (f ctx db) s
run_route (writes_holdings f) ctx db s =
    kept_holdings (f ctx (record s.world.holdings { db = db })) s
run_route (commits f) ctx db s =
    let (r, w) = f ctx (record s.world { holdings = record s.world.holdings { db = db } }) in
    (r, record s { world = w })

abbrev pub guarded_by : Result RequestContext → Route → Db → Running → Result Reply × Running
guarded_by (raise e) route db s = (raise e, s)
guarded_by (ok admin) route db s = run_route route admin db s

-- a route behind the guard `require_admin`
unfoldable pub for_admin : Route → RequestContext → Db → Running → Result Reply × Running
for_admin route ctx db s = guarded_by (require_admin db ctx) route db s

abbrev pub run_for :
    Result (RequestContext × Db)
    → (RequestContext → Db → Running → Result Reply × Running)
    → Running
    → Result Reply × Running
run_for (raise e) next s = (raise e, s)
run_for (ok (ctx, db)) next s = next ctx db s

-- what depends on `current_context`
unfoldable pub for_caller :
    Gateway
    → Arrival
    → (RequestContext → Db → Running → Result Reply × Running)
    → Running
    → Result Reply × Running
for_caller g a next s =
    let (r, l) = current_context g a s in run_for r next (record s { limiter = l })

-- The response: the reply of a route, or the status, the code and the id of the request that
-- `agentid_error_handler` answers with, and whether it asks for a bearer token. Other exceptions are left to
-- the framework.
pub data Response : Type 0 where
  replied : Reply → Response
  refused : ℕ → String → String → Bool → Response
  crashed : Exception → Response

unfoldable pub response_of : String → Result Reply → Response
response_of request_id (ok reply) = replied reply
response_of request_id (raise (error kind code)) =
    refused (status_code kind) code request_id (eqb (status_code kind) 401)
response_of request_id (raise integrity_error) = crashed integrity_error
response_of request_id (raise (python_error name)) = crashed (python_error name)
