-- ===== src/Servers/Postgres.antt =====
-- agentid/servers/postgres/server.py: tables that are read, some of them by service accounts alone. The
-- server has no state.
pub mod Restricted
use agentid_mcp_gateway.Prelude.{
  ℕ, String, Bool, true, false, not, ◌&&◌, ◌||◌, Option, none, some, List, [], ◌∷◌, ◌++◌, ◌==◌,
  ◌+++◌, ◌≡◌, contains, find_first, is_empty, join, length, map, take, truthy, sort_by, text_leb,
  if◌then◌else◌,
}
use agentid_mcp_gateway.Errors.{Result, ok, raise, Exception}
use agentid_mcp_gateway.Json.{
  Value, Fields, null, bool, num, str, arr, obj, end, field, keys, texts,
}
use agentid_mcp_gateway.Jwt.{Jwt}
use agentid_mcp_gateway.Sdk.Claims.{GatewayClaims, identity_chain}
use agentid_mcp_gateway.Sdk.Verifier.{TokenVerifier}
use agentid_mcp_gateway.Servers.Common.{
  Answer, Builtins, Handled, Handler, ToolSpec, argument, done, denied, failed, int_or, serve,
  text_content, text_or, with_argument,
}

abbrev pub audience : String
audience = "agentid-mcp:database"

pub record Table : Type 0 where
  pub name : String
  pub rows : List Fields

-- `_TABLES`
abbrev pub tables : List Table
tables =
    record {
      name = "public.users";
      rows =
          field "id" (num 1)
            (field "email" (str "imad@example.com") (field "role" (str "developer") end))
          ∷ field "id" (num 2)
              (field "email" (str "ops@example.com") (field "role" (str "operator") end))
          ∷ [];
    }
    ∷ record {
      name = "public.deployments";
      rows =
          field "id" (num 10) (
            field "service" (str "backend")
              (field "version" (str "1.4.2") (field "status" (str "live") end)))
          ∷ [];
    }
    ∷ record {
      name = "private.billing";
      rows =
          field "id" (num 100)
            (field "customer" (str "acme") (field "amount_cents" (num 250000) end))
          ∷ [];
    }
    ∷ []

abbrev pub restricted_tables : List String
restricted_tables = "private.billing" ∷ []

-- `_TABLES[table]`, if it is there
unfoldable pub find_table : String → Option Table
find_table table = find_first (λ (t : Table). t.name == table) tables

-- `_require_readable` before the rest of a handler, which has the rows of the table
unfoldable pub require_readable : GatewayClaims → String → (List Fields → Handled) → Handled
require_readable claims table next = elim (find_table table) [
  | none ↦ denied ("unknown table: " +++ table) table
  | some t ↦
      if contains table restricted_tables && not (truthy claims.service_account)
      then denied (table +++ " may only be read by a service account") table
      else next t.rows
]

abbrev pub with_int : Result ℕ → (ℕ → Handled) → Handled
with_int (raise e) next = failed e
with_int (ok n) next = next n

-- the rows that a query shows
abbrev pub report : Builtins → GatewayClaims → String → ℕ → List Fields → Handled
report py claims table limit rows =
    let shown = take limit rows in
    done (
      text_content
        (join "\n" (
          (py.to_text (num (length shown))
            +++ " row(s) from "
            +++ table
            +++ " (as "
            +++ identity_chain claims
            +++ ")")
          ∷ map (λ (r : Fields). py.to_text (obj r)) shown))
        false)

-- A limit that is no natural number is not modelled.
unfoldable pub query : Builtins → Handler (Unit {0})
query py claims arguments s = with_argument (argument "table" arguments) s (λ table_value.
    with_argument (argument "limit" arguments) s (λ limit_value.
      let table = text_or py "" table_value in
      (
        with_int (int_or py 10 limit_value) (λ limit.
            if table == ""
            then done (text_content "table is required" true)
            else require_readable claims table (report py claims table limit)),
        s,
      )))

unfoldable pub list_tables : Handler (Unit {0})
list_tables claims arguments s = (
  done (text_content (join "\n" (sort_by text_leb (map (λ (t : Table). t.name) tables))) false),
  s,
)

abbrev columns : List Fields → List String
columns [] = []
columns (r ∷ rs) = sort_by text_leb (keys r)

abbrev or_no_columns : String → String
or_no_columns s = if s == "" then "(no columns)" else s

abbrev pub described : String → List Fields → Handled
described table rows =
    done (text_content (table +++ ": " +++ or_no_columns (join ", " (columns rows))) false)

unfoldable pub describe_table : Builtins → Handler (Unit {0})
describe_table py claims arguments s = with_argument (argument "table" arguments) s (λ table_value.
    let table = text_or py "" table_value in (require_readable claims table (described table), s))

abbrev property : String → String → Fields → Fields
property name type rest = field name (obj (field "type" (str type) end)) rest

abbrev schema : Fields → Fields → Fields
schema properties rest = field "type" (str "object") (field "properties" (obj properties) rest)

abbrev required : List String → Fields
required names = field "required" (arr (texts names)) end

-- `TOOLS`
abbrev pub tools : Builtins → List (ToolSpec (Unit {0}))
tools py =
    record {
      name = "query";
      description = "Read rows from a table";
      input_schema =
          schema (property "table" "string" (property "limit" "integer" end))
            (required ("table" ∷ []));
      handler = query py;
    }
    ∷ record {
      name = "list_tables";
      description = "List the tables this database exposes";
      input_schema = schema end end;
      handler = list_tables;
    }
    ∷ record {
      name = "describe_table";
      description = "Describe a table's columns";
      input_schema = schema (property "table" "string" end) (required ("table" ∷ []));
      handler = describe_table py;
    }
    ∷ []

-- the application of `create_app`
abbrev pub database_server :
    Builtins
    → (Exception → String)
    → Jwt
    → TokenVerifier
    → ℕ
    → String
    → Option String
    → Fields
    → Unit {0}
    → Answer × Unit {0}
database_server py message = serve py message (tools py)
