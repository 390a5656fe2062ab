-- ===== src/Gateway/RateLimit.antt =====
-- agentid/gateway/middleware/ratelimit.py: the counter of a fixed window for each key. Time is in
-- microseconds, and the dict of windows is a list with the latest write in front.
pub mod Fairness
use agentid_mcp_gateway.Prelude.{
  ℕ, zero, suc, ◌+◌, ◌-◌, ◌/◌, ◌≤◌, ◌<◌, String, Bool, true, false, not, Option, none, some, List,
  [], ◌∷◌, ◌==◌, ◌≡◌, refl, arith, eq_iff, leb, ltb, eqb, if◌then◌else◌, select, Option-cases,
  Bool-cases, inl, inr, length, text_cases,
}
use agentid_mcp_gateway.Config.{Settings}
use agentid_mcp_gateway.Errors.{Result, ok, raise, error, ErrorKind}
use agentid_mcp_gateway.Identity.Sessions.{seconds}

pub record Window : Type 0 where
  pub count : ℕ
  pub reset_at : ℕ

pub record RateLimiter : Type 0 where
  pub enabled : Bool
  pub limit : ℕ
  pub window_seconds : ℕ
  pub windows : List (String × Window)

-- `limit or settings...`
abbrev or_setting : Option ℕ → ℕ → ℕ
or_setting none d = d
or_setting (some n) d = if eqb n 0 then d else n

pub new_limiter : Option ℕ → Option ℕ → Settings → RateLimiter
new_limiter limit window_seconds s = record {
  enabled = s.rate_limit_enabled;
  limit = or_setting limit s.rate_limit_requests;
  window_seconds = or_setting window_seconds s.rate_limit_window_seconds;
  windows = [];
}

-- `self._windows.get(key)`
unfoldable pub window_of : String → List (String × Window) → Option Window
window_of key [] = none
window_of key ((k, w) ∷ ws) = if k == key then some w else window_of key ws

-- the window of the key that is open now, a new one where there is none
unfoldable pub open_window : ℕ → ℕ → Option Window → Window
open_window now window_seconds none = record { count = 0; reset_at = now + seconds window_seconds }
open_window now window_seconds (some w) =
    if leb w.reset_at now then record { count = 0; reset_at = now + seconds window_seconds } else w

-- `max(a, b)`
abbrev max : ℕ → ℕ → ℕ
max a b = if leb a b then b else a

-- One unit for the key: the units that remain and the seconds to the reset, or the refusal.
unfoldable pub check : ℕ → String → RateLimiter → Result (ℕ × ℕ) × RateLimiter
check now key l =
    let w = open_window now l.window_seconds (window_of key l.windows) in
    let counted : Window = record w { count = suc w.count } in
    let reset_in = (w.reset_at - now) / 1000000 in
    if l.enabled
    then (
      if ltb l.limit counted.count
          then raise (error ErrorKind.rate_limit_exceeded "rate_limited")
          else ok (l.limit - counted.count, max reset_in 0),
      record l { windows = (key, counted) ∷ l.windows },
    )
    else (ok (l.limit, l.window_seconds), l)

abbrev without : String → List (String × Window) → List (String × Window)
without key = select (λ (e : String × Window). not (e.0 == key))

pub reset : Option String → RateLimiter → RateLimiter
reset none l = record l { windows = [] }
reset (some key) l = record l { windows = without key l.windows }
