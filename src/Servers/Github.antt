-- ===== src/Servers/Github.antt =====
-- agentid/servers/github/server.py: issues in repositories, with the rules of the server on who writes
-- where.
pub mod Writers
pub mod Numbers
use agentid_mcp_gateway.Prelude.{
  ℕ, suc, ◌+◌, String, Bool, true, false, not, ◌&&◌, ◌||◌, Option, none, some, List, [], ◌∷◌, ◌++◌,
  ◌==◌, ◌+++◌, ◌≡◌, any, contains, eqb, find_first, has_part, is_empty, is_some, join, lower, map,
  select, set_union, strip, if◌then◌else◌,
}
use agentid_mcp_gateway.Context.{part}
use agentid_mcp_gateway.Errors.{Result, ok, raise}
use agentid_mcp_gateway.Json.{
  Value, Fields, Items, nil, cons, null, bool, num, str, arr, obj, end, field, get_or, texts,
}
use agentid_mcp_gateway.Jwt.{Jwt}
use agentid_mcp_gateway.Sdk.Claims.{GatewayClaims, identity_chain}
use agentid_mcp_gateway.Servers.Common.{
  Answer, Builtins, Handled, Handler, ToolSpec, argument, done, denied, failed, int_or, serve,
  text_content, text_or, with_argument, str_of,
}
use agentid_mcp_gateway.Sdk.Verifier.{TokenVerifier}
use agentid_mcp_gateway.Errors.{Exception}

abbrev pub audience : String
audience = "agentid-mcp:github"

pub record Issue : Type 0 where
  pub number : ℕ
  pub repo : String
  pub title : String
  pub body : Value
  pub created_by : String
  pub state : String

-- `WRITABLE_REPOS`, `_issues` in the order of insertion, and the next number of `_issue_ids`
pub record Github : Type 0 where
  pub writable_repos : List (String × List String)
  pub issues : List Issue
  pub next_number : ℕ

pub record Repo : Type 0 where
  pub name : String
  pub is_private : Bool
  pub description : String

-- `_REPOS`
abbrev pub repos : List Repo
repos =
    record { name = "company/backend"; is_private = true; description = "Backend services" }
    ∷ record { name = "company/frontend"; is_private = true; description = "Web client" }
    ∷ record { name = "company/docs"; is_private = false; description = "Public documentation" }
    ∷ []

abbrev pub reset_state : Github
reset_state = record { writable_repos = []; issues = []; next_number = 1 }

abbrev add_writers :
    String → List String → List (String × List String) → List (String × List String)
add_writers repo identities [] = (repo, set_union [] identities) ∷ []
add_writers repo identities ((r, writers) ∷ rest) =
    if r == repo
    then (r, set_union writers identities) ∷ rest
    else (r, writers) ∷ add_writers repo identities rest

unfoldable pub allow_write : String → List String → Github → Github
allow_write repo identities g = record g {
  writable_repos = add_writers repo identities g.writable_repos;
}

-- `WRITABLE_REPOS.get(repo, set())`
unfoldable pub writers_of : String → List (String × List String) → List String
writers_of repo [] = []
writers_of repo ((r, writers) ∷ rest) = if r == repo then writers else writers_of repo rest

-- `repo not in _REPOS`
abbrev pub known_repo : String → Bool
known_repo repo = any (λ (r : Repo). r.name == repo) repos

-- the identities of the chain, without None
abbrev pub chain : GatewayClaims → List String
chain claims =
    claims.subject ∷ part_of claims.agent
    ++ part_of claims.on_behalf_of
    ++ part_of claims.service_account
  where
    part_of : Option String → List String
    part_of none = []
    part_of (some s) = s ∷ []

-- `chain & allowed`
unfoldable pub may_write : Github → GatewayClaims → String → Bool
may_write g claims repo = any (λ i. contains i (writers_of repo g.writable_repos)) (chain claims)

-- `_require_repo` and `_require_write` before the rest of a handler
abbrev pub require_repo : String → Github → Handled × Github → Handled × Github
require_repo repo g next =
    if not (known_repo repo) then (denied ("unknown repository: " +++ repo) repo, g) else next

abbrev pub require_write : GatewayClaims → String → Github → Handled × Github → Handled × Github
require_write claims repo g next = require_repo repo g (
    if not (may_write g claims repo)
    then (denied (identity_chain claims +++ " may not write to " +++ repo) repo, g)
    else next)

-- the issue is added under the next number
abbrev pub opened : Builtins → GatewayClaims → Value → String → String → Github → Handled × Github
opened py claims body repo title g =
    let issue : Issue = record {
      number = g.next_number;
      repo = repo;
      title = title;
      body = body;
      created_by = identity_chain claims;
      state = "open";
    } in
    (
      done (
          text_content
            ("Created issue #"
              +++ py.to_text (num g.next_number)
              +++ " in "
              +++ repo
              +++ ": "
              +++ title)
            false),
      record g { issues = g.issues ++ issue ∷ []; next_number = suc g.next_number },
    )

unfoldable pub create_issue : Builtins → Handler Github
create_issue py claims arguments g = with_argument (argument "repo" arguments) g (λ repo_value.
    with_argument (argument "title" arguments) g (λ title_value.
      with_argument (argument "body" arguments) g (λ body_value.
        let repo = text_or py "" repo_value in
        let title = strip (text_or py "" title_value) in
        if repo == "" || title == ""
        then (done (text_content "repo and title are required" true), g)
        else require_write claims repo g
            (opened py claims (get_or (str "") body_value) repo title g))))

abbrev pub with_int : Result ℕ → Github → (ℕ → Handled × Github) → Handled × Github
with_int (raise e) g next = (failed e, g)
with_int (ok n) g next = next n

abbrev issue_line : Builtins → Issue → String
issue_line py issue =
    "#"
    +++ py.to_text (num issue.number)
    +++ " ["
    +++ issue.state
    +++ "] "
    +++ issue.repo
    +++ ": "
    +++ issue.title
    +++ " (opened by "
    +++ issue.created_by
    +++ ")"

abbrev pub shown : Builtins → ℕ → Github → Option Issue → Handled × Github
shown py number g none =
    (done (text_content ("issue #" +++ py.to_text (num number) +++ " not found") true), g)
shown py number g (some issue) =
    require_repo issue.repo g (done (text_content (issue_line py issue) false), g)

-- `_issues.get(number)`
unfoldable pub find_issue : ℕ → List Issue → Option Issue
find_issue number issues = find_first (λ (i : Issue). eqb i.number number) issues

unfoldable pub get_issue : Builtins → Handler Github
get_issue py claims arguments g =
    with_argument (argument "number" arguments) g
      (λ v. with_int (int_or py 0 v) g (λ number. shown py number g (find_issue number g.issues)))

abbrev repo_matches : String → Repo → Bool
repo_matches query r = has_part query (lower r.name) || has_part query (lower r.description)

unfoldable pub search_repository : Builtins → Handler Github
search_repository py claims arguments g = with_argument (argument "query" arguments) g (λ v.
    let hits = map (λ (r : Repo). r.name) (select (repo_matches (lower (text_or py "" v))) repos) in
    (
      done (
          text_content (if is_empty hits then "no repositories matched" else join "\n" hits) false),
      g,
    ))

-- `repo is None or i["repo"] == repo`
abbrev in_repo : Option Value → Issue → Bool
in_repo none i = true
in_repo (some null) i = true
in_repo (some (str repo)) i = i.repo == repo
in_repo (some v) i = false

unfoldable pub list_issues : Builtins → Handler Github
list_issues py claims arguments g = with_argument (argument "repo" arguments) g (λ repo.
    let rows = select (in_repo repo) g.issues in
    let lines =
      map (λ (i : Issue). "#" +++ py.to_text (num i.number) +++ " " +++ i.repo +++ ": " +++ i.title)
        rows in
    (done (text_content (if is_empty rows then "no issues" else join "\n" lines) false), g))

abbrev property : String → String → Fields → Fields
property name type rest = field name (obj (field "type" (str type) end)) rest

abbrev schema : Fields → Fields → Fields
schema properties rest = field "type" (str "object") (field "properties" (obj properties) rest)

abbrev required : List String → Fields
required names = field "required" (arr (texts names)) end

-- `TOOLS`
abbrev pub tools : Builtins → List (ToolSpec Github)
tools py =
    record {
      name = "create_issue";
      description = "Create an issue in a repository";
      input_schema =
          schema
            (property "repo" "string" (property "title" "string" (property "body" "string" end)))
            (required ("repo" ∷ "title" ∷ []));
      handler = create_issue py;
    }
    ∷ record {
      name = "get_issue";
      description = "Read a single issue by number";
      input_schema = schema (property "number" "integer" end) (required ("number" ∷ []));
      handler = get_issue py;
    }
    ∷ record {
      name = "list_issues";
      description = "List issues, optionally filtered by repository";
      input_schema = schema (property "repo" "string" end) end;
      handler = list_issues py;
    }
    ∷ record {
      name = "search_repository";
      description = "Search repositories by name or description";
      input_schema = schema (property "query" "string" end) (required ("query" ∷ []));
      handler = search_repository py;
    }
    ∷ []

-- the application of `create_app`
abbrev pub github_server :
    Builtins
    → (Exception → String)
    → Jwt
    → TokenVerifier
    → ℕ
    → String
    → Option String
    → Fields
    → Github
    → Answer × Github
github_server py message = serve py message (tools py)
