-- ===== src/Servers/Common/Dispatch.antt =====
-- agentid/servers/common.py: what holds of each handler holds of the application.
use agentid_mcp_gateway.Prelude.{
  ℕ, String, Option, none, some, List, [], ◌∷◌, ◌==◌, ◌≡◌, ◌⊎◌, inl, inr, refl, arith, find_first,
  Bool-cases, All,
}
use agentid_mcp_gateway.Errors.{Result, ok, raise, Exception}
use agentid_mcp_gateway.Json.{Value, Fields, null, bool, num, str, arr, obj, get}
use agentid_mcp_gateway.Jwt.{Jwt}
use agentid_mcp_gateway.Sdk.Claims.{GatewayClaims}
use agentid_mcp_gateway.Sdk.Verifier.{
  TokenVerifier, Verified, accepted, rejected, Admission, public_route, admitted, unauthorized,
  gateway_auth, admission, verify_header, default_public_paths,
}
use agentid_mcp_gateway.Servers.Common.{
  Builtins, Handled, with_argument, ToolSpec, call_spec, call_tool, is_text, mcp_endpoint, or_empty,
  put_spec, registry, routed, serve, spec_of,
}

-- a handler that reads an argument first does to the state what its rest does, or nothing
pub with_argument-keeps {ℓ} :
    {S : Type 0} (P : S → Type ℓ) (r : Result (Option Value)) (s : S)
    (next : Option Value → Handled × S)
    → P s
    → ((o : Option Value) → P (next o).1)
    → P (with_argument r s next).1
with_argument-keeps P (raise e) s next here rest = here
with_argument-keeps P (ok o) s next here rest = rest o

admission-admitted :
    (v : Verified GatewayClaims) {claims : GatewayClaims}
    → admission v ≡ admitted claims
    → v ≡ accepted claims
admission-admitted (accepted c) h = ground arith
admission-admitted (rejected code) h = ground arith

gateway_auth-admitted :
    (jwt : Jwt) (v : TokenVerifier) (public_paths : List String) (now : ℕ) (path : String)
    (header : Option String) {claims : GatewayClaims}
    → gateway_auth jwt v public_paths now path header ≡ admitted claims
    → verify_header jwt v now header ≡ accepted claims
unfolding gateway_auth
gateway_auth-admitted jwt v public_paths now path header h =
    ground (arith, admission-admitted (verify_header jwt v now header))

module _ {S : Type 0} (P : GatewayClaims → S → S → Type 0)
    (keeps : (c : GatewayClaims) (s : S) → P c s s) where
  -- what a call of a handler does to the state is as `P` says
  abbrev pub Handles : ToolSpec S → Type 0
  Handles spec = (c : GatewayClaims) (v : Value) (s : S) → P c s (spec.handler c v s).1

  All-put_spec :
      (spec : ToolSpec S) (tools : List (ToolSpec S))
      → Handles spec
      → All Handles tools
      → All Handles (put_spec spec tools)
  unfolding put_spec
  All-put_spec spec [] h all = (h, tt)
  All-put_spec spec (t ∷ ts) h (p, all) = elim (Bool-cases (t.name == spec.name)) [
    | inl e ↦ rw e (h, all)
    | inr e ↦ rw e (p, All-put_spec spec ts h all)
  ]

  All-registry :
      (seen tools : List (ToolSpec S))
      → All Handles seen
      → All Handles tools
      → All Handles (registry seen tools)
  unfolding registry
  All-registry seen [] s all = s
  All-registry seen (t ∷ ts) s (p, all) =
      All-registry (put_spec t seen) ts (All-put_spec t seen p s) all

  abbrev WhereFound : Option (ToolSpec S) → Type 0
  WhereFound none = Unit
  WhereFound (some spec) = Handles spec

  find_first-WhereFound :
      (name : String) (tools : List (ToolSpec S))
      → All Handles tools
      → WhereFound (find_first (λ (t : ToolSpec S). t.name == name) tools)
  find_first-WhereFound name [] all = tt
  find_first-WhereFound name (t ∷ ts) (p, all) = elim (Bool-cases (t.name == name)) [
    | inl e ↦ rw e p
    | inr e ↦ rw e (find_first-WhereFound name ts all)
  ]

  module _ (py : Builtins) (message : Exception → String) (claims : GatewayClaims) (id : Value)
      (s : S) where
    call_spec-keeps :
        (params : Fields) (spec : Option (ToolSpec S))
        → WhereFound spec
        → P claims s (call_spec py message claims id params (ok spec) s).1
    unfolding call_spec
    call_spec-keeps params none h = keeps claims s
    call_spec-keeps params (some spec) h = h claims (or_empty (get "arguments" params)) s

    call_named-keeps :
        (params : Fields) (tools : List (ToolSpec S)) (name : Option Value)
        → All Handles tools
        → P claims s (call_spec py message claims id params (spec_of tools name) s).1
    call_named-keeps params tools none all = call_spec-keeps params none tt
    call_named-keeps params tools (some null) all = call_spec-keeps params none tt
    call_named-keeps params tools (some (bool b)) all = call_spec-keeps params none tt
    call_named-keeps params tools (some (num n)) all = call_spec-keeps params none tt
    call_named-keeps params tools (some (str name)) all =
        call_spec-keeps params (find_first (λ (t : ToolSpec S). t.name == name) tools)
          (find_first-WhereFound name tools all)
    call_named-keeps params tools (some (arr vs)) all = unfold call_spec in keeps claims s
    call_named-keeps params tools (some (obj fs)) all = unfold call_spec in keeps claims s

    call_tool-keeps :
        (tools : List (ToolSpec S)) (params : Value)
        → All Handles tools
        → P claims s (call_tool py message tools claims id params s).1
    unfolding call_tool
    call_tool-keeps tools null all = keeps claims s
    call_tool-keeps tools (bool b) all = keeps claims s
    call_tool-keeps tools (num n) all = keeps claims s
    call_tool-keeps tools (str t) all = keeps claims s
    call_tool-keeps tools (arr vs) all = keeps claims s
    call_tool-keeps tools (obj params) all = call_named-keeps params tools (get "name" params) all

  module _ (py : Builtins) (message : Exception → String) (tools : List (ToolSpec S))
      (all : All Handles tools) where
    mcp_endpoint-keeps :
        (claims : GatewayClaims) (body : Fields) (s : S)
        → P claims s (mcp_endpoint py message tools claims body s).1
    unfolding mcp_endpoint
    mcp_endpoint-keeps claims body s =
        elim (Bool-cases (is_text "tools/list" (get "method" body))) [
          | inl e ↦ rw e (keeps claims s)
          | inr e ↦ elim (Bool-cases (is_text "tools/call" (get "method" body))) [
            | inl f ↦
                rw (e, f)
                  (call_tool-keeps py message claims _ s (registry [] tools)
                    (or_empty (get "params" body)) (All-registry [] tools tt all))
            | inr f ↦ rw (e, f) (keeps claims s)
          ]
        ]

    routed-keeps :
        (path : String) (body : Fields) (a : Admission) (s : S)
        → ((routed py message tools path body a s).1 ≡ s)
          ⊎ ((claims : GatewayClaims) × (a ≡ admitted claims)
              × P claims s (routed py message tools path body a s).1)
    unfolding routed
    routed-keeps path body public_route s = inl refl
    routed-keeps path body (unauthorized code) s = inl refl
    routed-keeps path body (admitted claims) s = elim (Bool-cases (path == "/mcp")) [
      | inl e ↦ rw e (inr (claims, refl, mcp_endpoint-keeps claims body s))
      | inr e ↦ rw e (inl refl)
    ]

    -- A request changes the state only where the middleware let it in with the claims of its credential,
    -- and then as a handler does.
    pub serve-keeps :
        (jwt : Jwt) (verifier : TokenVerifier) (now : ℕ) (path : String) (header : Option String)
        (body : Fields) (s : S)
        → ((serve py message tools jwt verifier now path header body s).1 ≡ s)
          ⊎ ((claims : GatewayClaims) × (verify_header jwt verifier now header ≡ accepted claims)
              × P claims s (serve py message tools jwt verifier now path header body s).1)
    unfolding serve
    serve-keeps jwt verifier now path header body s =
        elim (routed-keeps path body
          (gateway_auth jwt verifier default_public_paths now path header) s) [
            | inl same ↦ inl same
            | inr (claims, e, p) ↦ inr (
              claims,
              gateway_auth-admitted jwt verifier default_public_paths now path header e,
              p,
            )
          ]
