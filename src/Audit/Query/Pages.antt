-- ===== src/Audit/Query/Pages.antt =====
-- agentid/audit/storage.py and agentid/gateway/api/audit.py: what a query returns, page by page, and who
-- is shown what.
use agentid_mcp_gateway.Prelude.{
  ℕ, ◌+◌, ◌<◌, String, Bool, true, false, ◌||◌, ◌⊎◌, inl, inr, ltb, take, Bool-cases, Chained,
  Chained-is_ordered, is_ordered-take, is_ordered-drop, sort_by-is_ordered, length-select, Option,
  none, some, ◌++◌, ◌==◌, ◌≡◌, refl, ◌∙◌, arith, truthy, all, length, select, drop, sort_by,
  all-take, all-drop, all-select, all-sort_by, all-implies, drop-drop, take-append-take, take_all,
  length-sort_by, sort_by-perm, if◌then◌else◌,
}
use mathlib.Core.List.{Perm}
use mathlib.Core.Path.{fun_ext}
use agentid_mcp_gateway.Context.{RequestContext}
use agentid_mcp_gateway.Models.{Db, AuditEvent}
use agentid_mcp_gateway.Audit.Query.{
  Filters, no_filters, event_matches, matches_text, newest_first, own_filters, my_events,
  list_events, query_events,
}

-- `a` is an id and `b` is the same one
abbrev same_id : Option String → Option String → Bool
same_id (some a) (some b) = a == b
same_id a b = false

-- the event is of the user of the caller, or else of its agent
abbrev pub is_own : RequestContext → AuditEvent → Bool
is_own ctx e =
    if truthy ctx.user_id then same_id e.user_id ctx.user_id else same_id e.agent_id ctx.agent_id

matches_text-same_id :
    (wanted found : Option String)
    → truthy wanted ≡ true
    → matches_text wanted found ≡ true
    → same_id found wanted ≡ true
matches_text-same_id (some w) (some f) t h = ground arith
matches_text-same_id (some w) none t h = ground arith
matches_text-same_id none f t h = ground arith

event_matches-is_own :
    (ctx : RequestContext)
    → (truthy ctx.user_id || truthy ctx.agent_id) ≡ true
    → (e : AuditEvent) → event_matches (own_filters ctx) e ≡ true
    → is_own ctx e ≡ true
unfolding event_matches
event_matches-is_own ctx known e h = ground (
  arith,
  matches_text-same_id ctx.user_id e.user_id,
  matches_text-same_id ctx.agent_id e.agent_id,
)

event_matches-unfiltered :
    (ctx : RequestContext)
    → truthy ctx.user_id ≡ false
    → truthy ctx.agent_id ≡ false
    → (e : AuditEvent) → event_matches (own_filters ctx) e ≡ event_matches no_filters e
unfolding event_matches
event_matches-unfiltered ctx no_user no_agent e = ground arith

-- the one event is newer, or of the same time with the greater id
abbrev pub NoOlder : (AuditEvent → AuditEvent → Bool) → AuditEvent → AuditEvent → Type 0
NoOlder tie a b = (b.timestamp < a.timestamp) ⊎ ((b.timestamp ≡ a.timestamp) × (tie a b ≡ true))

NoOlder-newest_first :
    (tie : AuditEvent → AuditEvent → Bool) (a b : AuditEvent)
    → newest_first tie a b ≡ true
    → NoOlder tie a b
NoOlder-newest_first tie a b h = elim (Bool-cases (ltb b.timestamp a.timestamp)) [
  | inl e ↦ inl (ground arith)
  | inr e ↦ inr (ground arith, ground arith)
]

newest_first-total :
    (tie : AuditEvent → AuditEvent → Bool)
    → ((a b : AuditEvent) → tie a b ≡ false → tie b a ≡ true)
    → (a b : AuditEvent) → newest_first tie a b ≡ false
    → newest_first tie b a ≡ true
newest_first-total tie total a b h = ground (arith, total a b)

module _ (tie : AuditEvent → AuditEvent → Bool) where
  -- A page runs from the newest event to the oldest, and by descending id where the times are the same, if the
  -- ids are totally ordered. Two pages that follow one another are one page, so that a reader of the pages misses
  -- no event and sees none twice. A page of the length of the table is every event that passes the filters, and
  -- each once.
  pub query_events-pages :
      (f : Filters) (n m offset : ℕ) (db : Db)
      → ((a b : AuditEvent) → tie a b ≡ false → tie b a ≡ true)
      → Chained (NoOlder tie) (query_events tie f n offset db)
        × (query_events tie f n offset db ++ query_events tie f m (offset + n) db
            ≡ query_events tie f (n + m) offset db)
        × Perm
            (query_events tie f (length db.audit_events) 0 db)
            (select (event_matches f) db.audit_events)
  unfolding query_events
  query_events-pages f n m offset db total =
      let matching = select (event_matches f) db.audit_events in
      let before = newest_first tie in
      let events = sort_by before matching in
      (
        Chained-is_ordered before (NoOlder tie) (NoOlder-newest_first tie)
            (take n (drop offset events))
            (is_ordered-take before n (drop offset events) (
              is_ordered-drop before offset events
                (sort_by-is_ordered before (newest_first-total tie total) matching))),
        rw (← drop-drop n offset events) (take-append-take n m (drop offset events)),
        rw
            (take_all (length db.audit_events) events (
              omega (
                arith,
                length-sort_by before matching,
                length-select (event_matches f) db.audit_events,
              )))
            (sort_by-perm before matching),
      )

  -- each event of the answer passes the filters
  all-query_events :
      (f : Filters) (limit offset : ℕ) (db : Db)
      → all (event_matches f) (query_events tie f limit offset db) ≡ true
  unfolding query_events
  all-query_events f limit offset db =
      let found = select (event_matches f) db.audit_events in
      all-take (event_matches f) limit (drop offset (sort_by (newest_first tie) found)) (
        all-drop (event_matches f) offset (sort_by (newest_first tie) found) (
          all-sort_by (newest_first tie) (event_matches f) found
          ∙ all-select (event_matches f) db.audit_events))

  -- A caller with a user is shown only events of that user, and one with an agent alone only events of
  -- that agent.
  pub my_events_own :
      (ctx : RequestContext) (limit : ℕ) (db : Db)
      → (truthy ctx.user_id || truthy ctx.agent_id) ≡ true
      → all (is_own ctx) (my_events tie ctx limit db).1 ≡ true
  unfolding my_events
  my_events_own ctx limit db known =
      all-implies (event_matches (own_filters ctx)) (is_own ctx)
        (query_events tie (own_filters ctx) limit 0 db) (event_matches-is_own ctx known)
        (all-query_events (own_filters ctx) limit 0 db)

  -- A service account on its own, which is a caller with neither, is shown the events of everyone: the
  -- same as an administrator who asks with no filter.
  pub my_events_of_everyone :
      (ctx : RequestContext) (limit : ℕ) (db : Db)
      → truthy ctx.user_id ≡ false
      → truthy ctx.agent_id ≡ false
      → my_events tie ctx limit db ≡ list_events tie no_filters limit 0 db
  unfolding my_events list_events query_events
  my_events_of_everyone ctx limit db no_user no_agent =
      rw (fun_ext (λ e. event_matches-unfiltered ctx no_user no_agent e)) refl
