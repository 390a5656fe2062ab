-- ===== src/Servers/Github/Numbers.antt =====
-- agentid/servers/github/server.py: the numbers of the issues, over any number of requests.
use agentid_mcp_gateway.Prelude.{
  ℕ, suc, String, Bool, true, ◌&&◌, Option, some, List, [], ◌∷◌, ◌++◌, ◌≡◌, inl, inr, refl, sym,
  arith, eqb, find_first-append,
}
use mathlib.Core.Path.{subst}
use agentid_mcp_gateway.Errors.{Exception}
use agentid_mcp_gateway.Json.{Fields}
use agentid_mcp_gateway.Jwt.{Jwt}
use agentid_mcp_gateway.Sdk.Claims.{GatewayClaims}
use agentid_mcp_gateway.Sdk.Verifier.{TokenVerifier}
use agentid_mcp_gateway.Servers.Common.{Builtins}
use agentid_mcp_gateway.Servers.Github.{Github, Issue, find_issue, github_server}
use agentid_mcp_gateway.Servers.Github.Writers.{Change, unchanged, opened_one, github_server-Change}

-- one request: the time, the path, the Authorization header and the body
pub record Request : Type 0 where
  pub now : ℕ
  pub path : String
  pub header : Option String
  pub body : Fields

-- the numbers of the issues are `first`, `first + 1`, and so on up to the one before `next`
abbrev pub numbered : ℕ → List Issue → ℕ → Bool
numbered first [] next = eqb first next
numbered first (i ∷ is) next = eqb i.number first && numbered (suc first) is next

numbered-append :
    (first next : ℕ) (is : List Issue) (issue : Issue)
    → numbered first is next ≡ true
    → issue.number ≡ next
    → numbered first (is ++ issue ∷ []) (suc next) ≡ true
numbered-append first next [] issue h e = ground arith
numbered-append first next (i ∷ is) issue h e =
    ground (arith, numbered-append (suc first) next is issue)

-- a server without issues, with those who may write
abbrev pub started : List (String × List String) → Github
started writers = record { writable_repos = writers; issues = []; next_number = 1 }

abbrev Numbered : Github → Type 0
Numbered g = numbered 1 g.issues g.next_number ≡ true

Change-Numbered :
    (claims : GatewayClaims) (g g' : Github) → Change claims g g' → Numbered g → Numbered g'
Change-Numbered claims g g' (unchanged e) n = ground arith
Change-Numbered claims g g' (opened_one issue number by known may e) n =
    ground (arith, numbered-append 1 g.next_number g.issues issue)

-- what is found stays found
Change-found :
    (claims : GatewayClaims) (g g' : Github) (number : ℕ) {issue : Issue}
    → Change claims g g'
    → find_issue number g.issues ≡ some issue
    → find_issue number g'.issues ≡ some issue
unfolding find_issue
Change-found claims g g' number (unchanged e) h = ground arith
Change-found claims g g' number (opened_one issue' n by known may e) h =
    ground (arith, find_first-append (λ (i : Issue). eqb i.number number) g.issues (issue' ∷ []))

module _ (py : Builtins) (message : Exception → String) (jwt : Jwt) (verifier : TokenVerifier) where
  unfoldable pub after : Request → Github → Github
  after r g = (github_server py message jwt verifier r.now r.path r.header r.body g).1

  -- the state after the requests, the first of them first
  unfoldable pub after_all : List Request → Github → Github
  after_all [] g = g
  after_all (r ∷ rs) g = after_all rs (after r g)

  after-keeps :
      (P : Github → Type 0)
      → ((claims : GatewayClaims) (g g' : Github) → Change claims g g' → P g → P g')
      → (r : Request) (g : Github) → P g
      → P (after r g)
  unfolding after
  after-keeps P step r g h =
      elim (github_server-Change py message jwt verifier r.now r.path r.header r.body g) [
        | inl same ↦ subst P (sym same) h
        | inr (claims, e, change) ↦ step claims g _ change h
      ]

  after_all-keeps :
      (P : Github → Type 0)
      → ((claims : GatewayClaims) (g g' : Github) → Change claims g g' → P g → P g')
      → (rs : List Request) (g : Github) → P g
      → P (after_all rs g)
  unfolding after_all
  after_all-keeps P step [] g h = h
  after_all-keeps P step (r ∷ rs) g h =
      after_all-keeps P step rs (after r g) (after-keeps P step r g h)

  -- Whatever requests a server has answered since its start, whoever may write, its issues are numbered 1, 2, 3, … in the
  -- order of their opening; and an issue that is found by its number is found by it, unaltered, after any
  -- further requests.
  pub issues_numbered :
      (writers : List (String × List String)) (rs more : List Request) (number : ℕ) {issue : Issue}
      → find_issue number (after_all rs (started writers)).issues ≡ some issue
      → (numbered 1
            (after_all rs (started writers)).issues
            (after_all rs (started writers)).next_number
          ≡ true)
        × (find_issue number (after_all more (after_all rs (started writers))).issues ≡ some issue)
  issues_numbered writers rs more number {issue} found = (
    after_all-keeps Numbered Change-Numbered rs (started writers) refl,
    after_all-keeps (λ g. find_issue number g.issues ≡ some issue)
        (λ c g g' change h. Change-found c g g' number change h) more
        (after_all rs (started writers)) found,
  )
