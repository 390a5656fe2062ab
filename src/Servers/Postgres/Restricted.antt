-- ===== src/Servers/Postgres/Restricted.antt =====
-- agentid/servers/postgres/server.py: what the tools show of a restricted table.
use agentid_mcp_gateway.Prelude.{
  ℕ, String, Bool, true, false, List, ◌==◌, ◌≡◌, arith, eq_iff, ◌||◌, contains, truthy,
  Option-cases, inl, inr, Bool-cases, if◌then◌else◌,
}
use agentid_mcp_gateway.Errors.{Result, ok, raise}
use agentid_mcp_gateway.Json.{Fields, obj, get}
use agentid_mcp_gateway.Sdk.Claims.{GatewayClaims}
use agentid_mcp_gateway.Servers.Common.{Builtins, Handled, done, int_or, text_content, text_or}
use agentid_mcp_gateway.Servers.Postgres.{
  describe_table, described, find_table, query, report, require_readable, restricted_tables,
  with_int,
}

-- the handler went on to the table: it did not deny it, ask for it, or fail
abbrev pub shows : Handled → Bool
shows (done result) = true
shows other = false

require_readable-shows :
    (claims : GatewayClaims) (table : String) (next : List Fields → Handled)
    → contains table restricted_tables ≡ true
    → shows (require_readable claims table next) ≡ true
    → truthy claims.service_account ≡ true
unfolding require_readable
require_readable-shows claims table next restricted h = elim (Option-cases (find_table table)) [
  | inl e ↦ ground arith
  | inr (t, e) ↦ ground arith
]

-- the rest of `query` after its arguments are read
query-shows :
    (py : Builtins) (claims : GatewayClaims) (table : String) (limit : Result ℕ)
    → contains table restricted_tables ≡ true
    → shows (
        with_int limit (λ n.
          if table == ""
          then done (text_content "table is required" true)
          else require_readable claims table (report py claims table n)))
      ≡ true
    → truthy claims.service_account ≡ true
query-shows py claims table (raise e) restricted h = ground arith
query-shows py claims table (ok n) restricted h = elim (Bool-cases (table == "")) [
  | inl e ↦
      let empty : table ≡ "" = (eq_iff table "").0 e in
      let none_restricted : contains "" restricted_tables ≡ true = (rw empty at restricted) in
      absurd (ground (arith, none_restricted))
  | inr e ↦ require_readable-shows claims table (report py claims table n) restricted (rw e at h)
]

-- The database server shows nothing of a restricted table, neither its rows nor its columns, but to a
-- credential that names a service account: whatever the limit and the other arguments are, `query` and
-- `describe_table` deny the table or fail.
pub restricted_shown :
    (py : Builtins) (claims : GatewayClaims) (arguments : Fields)
    → contains (text_or py "" (get "table" arguments)) restricted_tables ≡ true
    → (shows (query py claims (obj arguments) tt).0
        || shows (describe_table py claims (obj arguments) tt).0)
      ≡ true
    → truthy claims.service_account ≡ true
unfolding query describe_table
restricted_shown py claims arguments restricted h =
    let table = text_or py "" (get "table" arguments) in
    elim (Bool-cases (shows (query py claims (obj arguments) tt).0)) [
      | inl e ↦ query-shows py claims table (int_or py 10 (get "limit" arguments)) restricted e
      | inr e ↦ require_readable-shows claims table (described table) restricted (rw e at h)
    ]
