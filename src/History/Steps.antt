-- ===== src/History/Steps.antt =====
-- agentid/gateway/deps.py: what a request may do to the ledger, from the authentication of its caller to its route.
use agentid_mcp_gateway.Prelude.{ℕ}
use agentid_mcp_gateway.Context.{RequestContext}
use agentid_mcp_gateway.Errors.{Result, ok, raise, ◌>>=◌}
use agentid_mcp_gateway.Errors.Holds.{Holds}
use agentid_mcp_gateway.Models.{Db}
use agentid_mcp_gateway.Credentials.Manager.{Holdings}
use agentid_mcp_gateway.Gateway.App.{
  Gateway, Arrival, Running, Route, database, settings_of, jwt_of, request_id_of, limited,
  current_context, reads, committed, kept_holdings, writes, writes_holdings, commits, guarded_by,
  for_admin, run_for, for_caller, run_route,
}
use agentid_mcp_gateway.Gateway.Commands.{Reply}
use agentid_mcp_gateway.Gateway.Deps.{require_admin, rate_limit_key}
use agentid_mcp_gateway.Gateway.RateLimit.{check, RateLimiter}
use agentid_mcp_gateway.Gateway.Service.{World, db_of}
use agentid_mcp_gateway.History.Accounts.{Leaves}
use agentid_mcp_gateway.History.Calls.{Leaves-authenticate}
use agentid_mcp_gateway.History.Ledger.{Lawful, Lawful-refl, Lawful-trans}

-- the change from one state of the gateway to another
abbrev pub Lawfully : Running → Running → Type 0
Lawfully s s' = Lawful (database s) (database s')

-- what a route may do with its session
abbrev pub RouteLawful : Route → Type 0
RouteLawful (reads f) = Unit {0}
RouteLawful (writes f) = (ctx : RequestContext) (db : Db) → Leaves db Reply (f ctx db)
RouteLawful (writes_holdings f) =
    (ctx : RequestContext) (h : Holdings)
    → Holds (λ (r : Reply × Holdings). Lawful h.db r.1.db) (f ctx h)
RouteLawful (commits f) = (ctx : RequestContext) (w : World) → Lawful (db_of w) (db_of (f ctx w).1)

-- a step of a request with the session that its authentication began
abbrev pub StepLawful : (RequestContext → Db → Running → Result Reply × Running) → Type 0
StepLawful next =
    (ctx : RequestContext) (db : Db) (s : Running)
    → Lawful (database s) db
    → Lawfully s (next ctx db s).1

pub StepLawful-run_route : (route : Route) → RouteLawful route → StepLawful (run_route route)
unfolding run_route
StepLawful-run_route (reads f) lawful ctx db s begun = Lawful-refl (database s)
StepLawful-run_route (writes f) lawful ctx db s begun = by_result (f ctx db) (lawful ctx db)
  where
    by_result : (r : Result (Reply × Db)) → Leaves db Reply r → Lawfully s (committed r s).1
    by_result (ok (reply, db')) written = Lawful-trans begun written
    by_result (raise e) written = Lawful-refl (database s)
StepLawful-run_route (writes_holdings f) lawful ctx db s begun =
    by_result (f ctx (record s.world.holdings { db = db }))
      (lawful ctx (record s.world.holdings { db = db }))
  where
    by_result :
        (r : Result (Reply × Holdings))
        → Holds (λ (x : Reply × Holdings). Lawful db x.1.db) r
        → Lawfully s (kept_holdings r s).1
    by_result (ok (reply, h)) written = Lawful-trans begun written
    by_result (raise e) written = Lawful-refl (database s)
StepLawful-run_route (commits f) lawful ctx db s begun = Lawful-trans begun (lawful ctx _)

pub StepLawful-for_admin : (route : Route) → RouteLawful route → StepLawful (for_admin route)
unfolding for_admin
StepLawful-for_admin route lawful ctx db s begun = by_guard (require_admin db ctx)
  where
    by_guard : (r : Result RequestContext) → Lawfully s (guarded_by r route db s).1
    by_guard (ok admin) = StepLawful-run_route route lawful admin db s begun
    by_guard (raise e) = Lawful-refl (database s)

pub Lawfully-for_caller :
    (g : Gateway) (a : Arrival) (next : RequestContext → Db → Running → Result Reply × Running)
    → StepLawful next
    → (s : Running) → Lawfully s (for_caller g a next s).1
unfolding for_caller current_context
Lawfully-for_caller g a next lawful s = by_authentication _ (
    Leaves-authenticate (jwt_of g) g.check_secret a.now (database s) (request_id_of a) a.client
      (settings_of g) a.authorization a.x_api_key)
  where
    by_units :
        (ctx : RequestContext) (db : Db) (r : Result (ℕ × ℕ)) (l : RateLimiter)
        → Lawful (database s) db
        → Lawfully s (run_for (r >>= λ units. ok (ctx, db)) next (record s { limiter = l })).1
    by_units ctx db (ok units) l begun = lawful ctx db (record s { limiter = l }) begun
    by_units ctx db (raise e) l begun = Lawful-refl (database s)

    by_authentication :
        (r : Result (RequestContext × Db))
        → Leaves (database s) RequestContext r
        → Lawfully s
            (run_for
              (limited a r s.limiter).0
              next
              (record s { limiter = (limited a r s.limiter).1 })).1
    by_authentication (ok (ctx, db)) begun =
        by_units ctx db (check a.monotonic (rate_limit_key ctx) s.limiter).0
          (check a.monotonic (rate_limit_key ctx) s.limiter).1 begun
    by_authentication (raise e) begun = Lawful-refl (database s)
