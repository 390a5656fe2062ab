-- ===== src/Servers/Github/Writers.antt =====
-- agentid/servers/github/server.py: who changes the issues, and how.
use agentid_mcp_gateway.Prelude.{
  ℕ, suc, String, true, ◌||◌, Option, none, some, [], ◌∷◌, ◌++◌, ◌==◌, ◌≡◌, ◌⊎◌, inl, inr, refl,
  arith, Bool-cases, strip, if◌then◌else◌,
}
use agentid_mcp_gateway.Errors.{Result, ok, raise, Exception}
use agentid_mcp_gateway.Json.{Value, Fields, str, get_or}
use agentid_mcp_gateway.Jwt.{Jwt}
use agentid_mcp_gateway.Sdk.Claims.{GatewayClaims, identity_chain}
use agentid_mcp_gateway.Sdk.Verifier.{TokenVerifier, accepted, verify_header}
use agentid_mcp_gateway.Servers.Common.{Builtins, argument, done, int_or, text_content, text_or}
use agentid_mcp_gateway.Servers.Common.Dispatch.{serve-keeps, with_argument-keeps}
use agentid_mcp_gateway.Servers.Github.{
  Github, Issue, create_issue, find_issue, get_issue, github_server, known_repo, list_issues,
  may_write, search_repository, tools, require_write, opened, shown, with_int,
}

-- What a call with these claims may do to the state: nothing, or open one issue under the next number, in
-- a repository that is there and that an identity of the chain may write to.
pub data Change (claims : GatewayClaims) (g g' : Github) : Type 0 where
  unchanged : g' ≡ g → Change claims g g'
  opened_one :
      (issue : Issue)
      → issue.number ≡ g.next_number
      → issue.created_by ≡ identity_chain claims
      → known_repo issue.repo ≡ true
      → may_write g claims issue.repo ≡ true
      → g' ≡ record g { issues = g.issues ++ issue ∷ []; next_number = suc g.next_number }
      → Change claims g g'

module _ (py : Builtins) (claims : GatewayClaims) where
  -- the handler after its arguments are read
  create_text-Change :
      (body : Value) (repo title : String) (g : Github)
      → Change claims g
          (if repo == "" || title == ""
            then (done (text_content "repo and title are required" true), g)
            else require_write claims repo g (opened py claims body repo title g)).1
  create_text-Change body repo title g = elim (Bool-cases (repo == "" || title == "")) [
    | inl e ↦ rw e (unchanged refl)
    | inr e ↦ elim (Bool-cases (known_repo repo)) [
      | inl k ↦ elim (Bool-cases (may_write g claims repo)) [
        | inl m ↦ rw (e, k, m) (opened_one _ refl refl k m refl)
        | inr m ↦ rw (e, k, m) (unchanged refl)
      ]
      | inr k ↦ rw (e, k) (unchanged refl)
    ]
  ]

  create_issue-Change : (v : Value) (g : Github) → Change claims g (create_issue py claims v g).1
  unfolding create_issue
  create_issue-Change v g =
      with_argument-keeps (Change claims g) (argument "repo" v) g _ (unchanged refl) (λ repo.
        with_argument-keeps (Change claims g) (argument "title" v) g _ (unchanged refl) (λ title.
          with_argument-keeps (Change claims g) (argument "body" v) g _ (unchanged refl) (λ body.
            create_text-Change (get_or (str "") body) (text_or py "" repo)
              (strip (text_or py "" title)) g)))

  shown-same : (number : ℕ) (g : Github) (found : Option Issue) → (shown py number g found).1 ≡ g
  shown-same number g none = refl
  shown-same number g (some issue) = ground arith

  get_issue-Change : (v : Value) (g : Github) → Change claims g (get_issue py claims v g).1
  unfolding get_issue
  get_issue-Change v g =
      with_argument-keeps (Change claims g) (argument "number" v) g _ (unchanged refl)
        (λ o. read (int_or py 0 o))
    where
      read :
          (r : Result ℕ)
          → Change claims g
              (with_int r g (λ number. shown py number g (find_issue number g.issues))).1
      read (raise e) = unchanged refl
      read (ok number) = unchanged (shown-same number g (find_issue number g.issues))

  list_issues-Change : (v : Value) (g : Github) → Change claims g (list_issues py claims v g).1
  unfolding list_issues
  list_issues-Change v g =
      with_argument-keeps (Change claims g) (argument "repo" v) g _ (unchanged refl)
        (λ o. unchanged refl)

  search_repository-Change :
      (v : Value) (g : Github) → Change claims g (search_repository py claims v g).1
  unfolding search_repository
  search_repository-Change v g =
      with_argument-keeps (Change claims g) (argument "query" v) g _ (unchanged refl)
        (λ o. unchanged refl)

-- A request leaves the state of the server as it is, or its credential verifies and it opens one issue
-- under the next number, in a repository that is there and that the credential's subject, its agent, its
-- user or its service account may write to; the issue names the identities that opened it.
pub github_server-Change :
    (py : Builtins) (message : Exception → String) (jwt : Jwt) (verifier : TokenVerifier) (now : ℕ)
    (path : String) (header : Option String) (body : Fields) (g : Github)
    → ((github_server py message jwt verifier now path header body g).1 ≡ g)
      ⊎ ((claims : GatewayClaims) × (verify_header jwt verifier now header ≡ accepted claims)
          × Change claims g (github_server py message jwt verifier now path header body g).1)
github_server-Change py message jwt verifier now path header body g =
    serve-keeps Change (λ c s. unchanged refl) py message (tools py)
      (
        create_issue-Change py,
        (get_issue-Change py, (list_issues-Change py, (search_repository-Change py, tt))),
      )
      jwt verifier now path header body g
