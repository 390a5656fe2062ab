-- ===== src/Servers/Common.antt =====
-- agentid/servers/common.py: an MCP server that trusts only credentials of the gateway. Its tools keep a
-- state of their own; the text of a value and the number in a text are given.
pub mod Dispatch
use agentid_mcp_gateway.Prelude.{
  ℕ, String, Bool, true, false, not, Option, none, some, List, [], ◌∷◌, ◌==◌, ◌+++◌, ◌≡◌,
  find_first, if◌then◌else◌,
}
use agentid_mcp_gateway.Errors.{Result, ok, raise, python_error, Exception}
use agentid_mcp_gateway.Json.{
  Value, Fields, Items, null, bool, num, str, arr, obj, nil, cons, end, field, get, get_or,
  value_truthy, text_or_null,
}
use agentid_mcp_gateway.Jwt.{Jwt}
use agentid_mcp_gateway.Sdk.Claims.{GatewayClaims}
use agentid_mcp_gateway.Sdk.Verifier.{
  TokenVerifier, Admission, public_route, admitted, unauthorized, gateway_auth,
  default_public_paths,
}

-- `str(v)` for a value that is no text, and `int(s)` for a text, where it is the numeral of a natural
-- number.
pub record Builtins : Type 0 where
  pub to_text : Value → String
  pub to_int : String → Option ℕ

unfoldable pub str_of : Builtins → Value → String
str_of py (str s) = s
str_of py v = py.to_text v

-- What a handler does: it returns a result, denies the resource, or raises another exception.
pub data Handled : Type 0 where
  done : Fields → Handled
  -- `ResourceDenied` with its message and its resource
  denied : String → String → Handled
  failed : Exception → Handled

abbrev pub Handler : Type 0 → Type 0
Handler S = GatewayClaims → Value → S → Handled × S

pub record ToolSpec (S : Type 0) : Type 0 where
  pub name : String
  pub description : String
  pub input_schema : Fields
  pub handler : Handler S

-- `text`
pub text_content : String → Bool → Fields
text_content content is_error =
    field "content"
      (arr (cons (obj (field "type" (str "text") (field "text" (str content) end))) nil))
      (field "isError" (bool is_error) end)

-- `arguments.get(k)`, which a value that is no dict does not have
abbrev pub argument : String → Value → Result (Option Value)
argument k (obj fs) = ok (get k fs)
argument k v = raise (python_error "AttributeError")

-- a handler that begins with the reading of an argument
abbrev pub with_argument :
    {S : Type 0} → Result (Option Value) → S → (Option Value → Handled × S) → Handled × S
with_argument (raise e) s next = (failed e, s)
with_argument (ok v) s next = next v

-- `str(arguments.get(k, default))`
abbrev pub text_or : Builtins → String → Option Value → String
text_or py default v = str_of py (get_or (str default) v)

-- `int(arguments.get(k, default))`
unfoldable pub int_or : Builtins → ℕ → Option Value → Result ℕ
int_or py default none = ok default
int_or py default (some (num n)) = ok n
int_or py default (some (bool true)) = ok 1
int_or py default (some (bool false)) = ok 0
int_or py default (some (str s)) = elim (py.to_int s) [
  | none ↦ raise (python_error "ValueError")
  | some n ↦ ok n
]
int_or py default (some null) = raise (python_error "TypeError")
int_or py default (some (arr vs)) = raise (python_error "TypeError")
int_or py default (some (obj fs)) = raise (python_error "TypeError")

-- A JSON-RPC response to the request with the id: the result, with the status 200, or an error with the
-- status, the absolute value of its code, which is negative, the message, and the data. Or else an
-- exception that reaches the framework.
pub data Reply : Type 0 where
  rpc_result : Value → Fields → Reply
  rpc_error : Value → ℕ → ℕ → String → Fields → Reply
  crashed : Exception → Reply

-- the reply to a call that was handled
abbrev pub answer : (Exception → String) → Value → Handled → Reply
answer message id (done result) = rpc_result id result
answer message id (denied reason resource) =
    rpc_error id 403 32003 reason
      (field "reason" (str "resource_forbidden") (field "resource" (str resource) end))
answer message id (failed e) = rpc_error id 500 32603 (message e) end

-- `params.get("arguments") or {}`
abbrev pub or_empty : Option Value → Value
or_empty none = obj end
or_empty (some v) = if value_truthy v then v else obj end

-- the text of `d.get(k)` in an f-string
abbrev pub text_or_none : Builtins → Option Value → String
text_or_none py o = str_of py (get_or null o)

-- `d.get(k) == s`
abbrev pub is_text : String → Option Value → Bool
is_text s (some (str t)) = t == s
is_text s o = false

module _ {S : Type 0} where
  -- `{spec.name: spec for spec in tools}`, as its values
  unfoldable pub put_spec : ToolSpec S → List (ToolSpec S) → List (ToolSpec S)
  put_spec spec [] = spec ∷ []
  put_spec spec (t ∷ ts) = if t.name == spec.name then spec ∷ ts else t ∷ put_spec spec ts

  unfoldable pub registry : List (ToolSpec S) → List (ToolSpec S) → List (ToolSpec S)
  unfolding put_spec
  registry seen [] = seen
  registry seen (t ∷ ts) = registry (put_spec t seen) ts

  pub listed : List (ToolSpec S) → Items
  listed [] = nil
  listed (t ∷ ts) =
      cons
        (obj (
          field "name" (str t.name) (
            field "description" (str t.description)
              (field "inputSchema" (obj t.input_schema) end))))
        (listed ts)

  -- `registry.get(name)`: a list or a dict is no key
  abbrev pub spec_of : List (ToolSpec S) → Option Value → Result (Option (ToolSpec S))
  spec_of tools (some (str name)) = ok (find_first (λ (t : ToolSpec S). t.name == name) tools)
  spec_of tools (some (arr vs)) = raise (python_error "TypeError")
  spec_of tools (some (obj fs)) = raise (python_error "TypeError")
  spec_of tools name = ok none

  -- the call of the tool that was found
  unfoldable pub call_spec :
      Builtins
      → (Exception → String)
      → GatewayClaims
      → Value
      → Fields
      → Result (Option (ToolSpec S))
      → S
      → Reply × S
  call_spec py message claims id params (raise e) s = (crashed e, s)
  call_spec py message claims id params (ok none) s =
      (rpc_error id 404 32602 ("unknown tool: " +++ text_or_none py (get "name" params)) end, s)
  call_spec py message claims id params (ok (some spec)) s =
      let (handled, s') = spec.handler claims (or_empty (get "arguments" params)) s in
      (answer message id handled, s')

  -- `params.get` of a value that is no dict
  unfoldable pub call_tool :
      Builtins
      → (Exception → String)
      → List (ToolSpec S)
      → GatewayClaims
      → Value
      → Value
      → S
      → Reply × S
  call_tool py message tools claims id (obj params) s =
      call_spec py message claims id params (spec_of tools (get "name" params)) s
  call_tool py message tools claims id v s = (crashed (python_error "AttributeError"), s)

  -- `mcp_endpoint` for a body that is a dict
  unfoldable pub mcp_endpoint :
      Builtins → (Exception → String) → List (ToolSpec S) → GatewayClaims → Fields → S → Reply × S
  mcp_endpoint py message tools claims body s =
      let id = get_or null (get "id" body) in
      let method = get "method" body in
      if is_text "tools/list" method
      then (rpc_result id (field "tools" (arr (listed (registry [] tools))) end), s)
      else if not (is_text "tools/call" method)
      then (rpc_error id 400 32601 ("method not found: " +++ text_or_none py method) end, s)
      else call_tool py message (registry [] tools) claims id (or_empty (get "params" body)) s

-- What the application answers. A public path and one that has no route are left to the framework.
pub data Answer : Type 0 where
  health : Answer
  framework : Answer
  unauthenticated : String → Answer
  replied : Reply → Answer

-- the routes behind the middleware
unfoldable pub routed :
    {S : Type 0}
    → Builtins
    → (Exception → String)
    → List (ToolSpec S)
    → String
    → Fields
    → Admission
    → S
    → Answer × S
routed py message tools path body public_route s =
    (if path == "/health" then health else framework, s)
routed py message tools path body (unauthorized code) s = (unauthenticated code, s)
routed py message tools path body (admitted claims) s =
    let (reply, s') = mcp_endpoint py message tools claims body s in
    if path == "/mcp" then (replied reply, s') else (framework, s)

-- the application of `build_server`: a request with its path, its Authorization header and its body
unfoldable pub serve :
    {S : Type 0}
    → Builtins
    → (Exception → String)
    → List (ToolSpec S)
    → Jwt
    → TokenVerifier
    → ℕ
    → String
    → Option String
    → Fields
    → S
    → Answer × S
serve py message tools jwt verifier now path header body s =
    routed py message tools path body
      (gateway_auth jwt verifier default_public_paths now path header) s
