-- ===== src/Gateway/App/Access.antt =====
-- agentid/gateway/deps.py and main.py: what stands between a request and the state of the gateway.
use agentid_mcp_gateway.Prelude.{
  ℕ, suc, ◌≤◌, ◌<◌, String, true, false, some, List, ◌∷◌, ◌==◌, ◌≡◌, ◌⊎◌, refl, arith, eq_iff, eqb,
  leb, ltb, Bool-cases, inl, inr,
}
use agentid_mcp_gateway.Context.{RequestContext}
use agentid_mcp_gateway.Errors.{Result, ok, raise, error, ErrorKind, Exception, ◌>>=◌, status_code}
use agentid_mcp_gateway.Models.{Db}
use agentid_mcp_gateway.Gateway.App.{
  Gateway, Arrival, Running, refused, database, settings_of, jwt_of, request_id_of, limited,
  current_context, run_for, for_admin, for_caller, response_of,
}
use agentid_mcp_gateway.Gateway.App.Routes.{admin_route, perform, respond}
use agentid_mcp_gateway.Gateway.Auth.{authenticate}
use agentid_mcp_gateway.Gateway.Auth.Refusals.{Fails-authenticate}
use agentid_mcp_gateway.Gateway.Commands.{Command, CallerCommand, AdminCommand}
use agentid_mcp_gateway.Gateway.Deps.{
  admin_permission, permissions_for, permitted, rate_limit_key, require_admin,
}
use agentid_mcp_gateway.Gateway.RateLimit.{RateLimiter, Window, check, open_window, window_of}

-- the authentication of a request
abbrev pub authenticated : Gateway → Arrival → Running → Result (RequestContext × Db)
authenticated g a s =
    authenticate (jwt_of g) g.check_secret a.now (database s) a.authorization a.x_api_key
      (request_id_of a) a.client (settings_of g)

module _ (g : Gateway) (a : Arrival) (s : Running) where
  -- Every route but the login and the exchange of a token needs an authenticated caller: where authentication
  -- fails, it is with an exception of the program whose status is 401, or 403 for a delegation that is not active or
  -- a persona that does not fit. That status is the answer, with the code of the exception and the id of the request,
  -- and nothing changes.
  pub unauthenticated_refused :
      (c : CallerCommand) (d : AdminCommand) (e : Exception)
      → authenticated g a s ≡ raise e
      → (kind : ErrorKind) × (code : String) × (e ≡ error kind code)
        × ((status_code kind ≡ 401) ⊎ (status_code kind ≡ 403))
        × (respond g a (Command.as_caller c) s
            ≡ (refused (status_code kind) code (request_id_of a) (eqb (status_code kind) 401), s))
        × (respond g a (Command.as_admin d) s
            ≡ (refused (status_code kind) code (request_id_of a) (eqb (status_code kind) 401), s))
  unfolding respond perform for_caller current_context response_of
  unauthenticated_refused c d e h =
      let (kind, code, same, status) =
        Fails-authenticate (jwt_of g) g.check_secret a.now (database s) a.authorization a.x_api_key
          (request_id_of a) a.client (settings_of g) e h in
      (kind, code, same, status, rw (h, same) refl, rw (h, same) refl)

  -- the request is refused with a 429; of the state of the gateway only the limiter changes
  abbrev pub Limited : Command → RateLimiter → Type 0
  Limited c l =
      respond g a c s
      ≡ (refused 429 "rate_limited" (request_id_of a) false, record s { limiter = l })

  -- An authenticated caller whose window is open and full is refused on every route but the login and the exchange
  -- of a token, which need no caller: the answer is a 429, and neither the database nor the cache changes and nothing
  -- is posted. The refused request is counted in the window, which keeps its time of reset; the windows of the other
  -- keys and the settings of the limiter stay as they are.
  pub full_window_refused :
      (c : CallerCommand) (d : AdminCommand) (ctx : RequestContext) (db : Db) (w : Window)
      → authenticated g a s ≡ ok (ctx, db)
      → s.limiter.enabled ≡ true
      → window_of (rate_limit_key ctx) s.limiter.windows ≡ some w
      → a.monotonic < w.reset_at
      → s.limiter.limit ≤ w.count
      → (windows : List (String × Window)) × Limited
          (Command.as_caller c)
          (record s.limiter { windows = windows })
        × Limited (Command.as_admin d) (record s.limiter { windows = windows })
        × (window_of (rate_limit_key ctx) windows ≡ some (record w { count = suc w.count }))
        × ((key : String)
            → (rate_limit_key ctx == key) ≡ false
            → window_of key windows ≡ window_of key s.limiter.windows)
  unfolding respond perform for_caller current_context response_of check open_window status_code
      window_of
  full_window_refused c d ctx db w h on found live full =
      let past : leb w.reset_at a.monotonic ≡ false = ground arith in
      let over : ltb s.limiter.limit (suc w.count) ≡ true = ground arith in
      (
        (rate_limit_key ctx, record w { count = suc w.count }) ∷ s.limiter.windows,
        rw (h, on, found, past, over) refl,
        rw (h, on, found, past, over) refl,
        ground (arith, eq_iff (rate_limit_key ctx) (rate_limit_key ctx)),
        λ key other. rw other refl,
      )

  -- the caller is authenticated and holds the permission of administrators
  abbrev pub Administrator : Type 0
  Administrator =
      (ctx : RequestContext) × (db : Db) × (authenticated g a s ≡ ok (ctx, db))
      × (permitted (permissions_for db ctx) admin_permission ≡ true)

  -- An administrative request changes neither the database nor the cache and posts nothing, unless its caller is
  -- authenticated and holds the permission of administrators.
  pub administered :
      (c : AdminCommand) → ((perform g a (Command.as_admin c) s).1.world ≡ s.world) ⊎ Administrator
  unfolding perform for_caller current_context for_admin require_admin
  administered c = by_authentication (authenticated g a s) refl
    where
      by_units :
          (ctx : RequestContext) (db : Db) (r : Result (ℕ × ℕ)) (l : RateLimiter)
          → authenticated g a s ≡ ok (ctx, db)
          → ((run_for
                (r >>= λ units. ok (ctx, db))
                (for_admin (admin_route g a c))
                (record s { limiter = l })).1.world
              ≡ s.world)
            ⊎ Administrator
      by_units ctx db (raise e) l h = inl refl
      by_units ctx db (ok units) l h =
          elim (Bool-cases (permitted (permissions_for db ctx) admin_permission)) [
            | inl e ↦ inr (ctx, db, h, e)
            | inr e ↦ inl (rw e refl)
          ]

      by_authentication :
          (r : Result (RequestContext × Db))
          → authenticated g a s ≡ r
          → ((run_for
                (limited a r s.limiter).0
                (for_admin (admin_route g a c))
                (record s { limiter = (limited a r s.limiter).1 })).1.world
              ≡ s.world)
            ⊎ Administrator
      by_authentication (raise e) h = inl refl
      by_authentication (ok (ctx, db)) h =
          by_units ctx db (check a.monotonic (rate_limit_key ctx) s.limiter).0
            (check a.monotonic (rate_limit_key ctx) s.limiter).1 h
