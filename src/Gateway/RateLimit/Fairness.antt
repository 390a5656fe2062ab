-- ===== src/Gateway/RateLimit/Fairness.antt =====
-- agentid/gateway/middleware/ratelimit.py: how many of a sequence of calls a window serves.
use agentid_mcp_gateway.Prelude.{
  ℕ, suc, ◌-◌, ◌<◌, String, Bool, true, false, ◌&&◌, some, List, [], ◌∷◌, ◌==◌, ◌≡◌, refl, arith,
  eq_iff, leb, ltb, if◌then◌else◌, all, inl, inr, text_cases, &&-eq-true,
}
use agentid_mcp_gateway.Errors.{Result, ok, raise}
use agentid_mcp_gateway.Gateway.RateLimit.{RateLimiter, Window, window_of, open_window, check}

abbrev is_ok {ℓ} : {A : Type ℓ} → Result A → Bool
is_ok (ok a) = true
is_ok (raise e) = false

-- the number of calls for the key that are answered, where each call is a time and a key
unfoldable pub served : String → List (ℕ × String) → RateLimiter → ℕ
served key [] l = 0
served key ((now, k) ∷ calls) l =
    let (r, l') = check now k l in
    let rest = served key calls l' in if k == key && is_ok r then suc rest else rest

-- the number of calls for the key
abbrev pub requests : String → List (ℕ × String) → ℕ
requests key [] = 0
requests key ((now, k) ∷ calls) = if k == key then suc (requests key calls) else requests key calls

abbrev pub all_before : ℕ → List (ℕ × String) → Bool
all_before t = all (λ (c : ℕ × String). ltb c.0 t)

abbrev pub min : ℕ → ℕ → ℕ
min a b = if leb a b then a else b

module _ (now : ℕ) (key : String) (l : RateLimiter) (w : Window) where
  -- a call for the key in its open window counts
  window-check_self :
      l.enabled ≡ true
      → window_of key l.windows ≡ some w
      → now < w.reset_at
      → window_of key (check now key l).1.windows ≡ some record w { count = suc w.count }
  unfolding check open_window window_of
  window-check_self on e early = ground (arith, e, eq_iff key key)

  ok-check_self :
      l.enabled ≡ true
      → window_of key l.windows ≡ some w
      → now < w.reset_at
      → is_ok (check now key l).0 ≡ leb (suc w.count) l.limit
  unfolding check open_window
  ok-check_self on e early = ground (arith, e)

  -- a call for another key leaves the window
  window-check_other :
      (k : String)
      → (k == key) ≡ false
      → window_of key (check now k l).1.windows ≡ window_of key l.windows
  unfolding check window_of
  window-check_other k ne = ground (arith, ne)

check-enabled : (now : ℕ) (k : String) (l : RateLimiter) → (check now k l).1.enabled ≡ l.enabled
unfolding check
check-enabled now k l = ground arith

check-limit : (now : ℕ) (k : String) (l : RateLimiter) → (check now k l).1.limit ≡ l.limit
unfolding check
check-limit now k l = ground arith

-- While the window of a key is open, the calls for the key that are answered are exactly the first
-- ones, up to what its limit leaves, whatever calls for other keys come between.
pub served_in_window :
    (key : String) (calls : List (ℕ × String)) (l : RateLimiter) (w : Window)
    → l.enabled ≡ true
    → window_of key l.windows ≡ some w
    → all_before w.reset_at calls ≡ true
    → served key calls l ≡ min (requests key calls) (l.limit - w.count)
unfolding served
served_in_window key [] l w on e early = ground arith
served_in_window key ((now, k) ∷ calls) l w on e early =
    let (first, others) = &&-eq-true (ltb now w.reset_at) (all_before w.reset_at calls) early in
    let before : now < w.reset_at = ground (arith, first) in
    elim (text_cases k key) [
      | inl same ↦ rw same (
          ground (
            arith,
            eq_iff key key,
            ok-check_self now key l w on e before,
            served_in_window key calls (check now key l).1 (record w { count = suc w.count })
                (rw (check-enabled now key l) on) (window-check_self now key l w on e before)
                others,
            check-limit now key l,
          ))
      | inr ne ↦
          let rest =
            served_in_window key calls (check now k l).1 w (rw (check-enabled now k l) on)
              (rw (window-check_other now key l w k ne) e) others in
          rw (ne, rest, check-limit now k l) refl
    ]
