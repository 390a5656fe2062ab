-- ===== src/Gateway/Proxy.antt =====
-- agentid/gateway/mcp/protocol.py and proxy.py: the request that is posted to a server, and what its
-- response is taken for. The HTTP client is given: its answer to a request, after those before it.
pub mod Malformed
use agentid_mcp_gateway.Prelude.{
  ℕ, String, Bool, true, false, ◌&&◌, Option, none, some, List, [], ◌∷◌, ◌++◌, ◌==◌, ◌+++◌,
  if◌then◌else◌, is_some,
}
use agentid_mcp_gateway.Errors.{Result, ok, raise, error, python_error, ErrorKind}
use agentid_mcp_gateway.Json.{
  Value, Fields, null, bool, num, str, arr, obj, end, field, get, get_truthy, get_or, value_truthy,
  nil, cons,
}
use agentid_mcp_gateway.Gateway.Router.{Route, url}

-- A request as the client posts it.
pub record Sent : Type 0 where
  pub url : String
  pub payload : Fields
  pub headers : List (String × String)

pub data Answer : Type 0 where
  timeout http_error : Answer
  -- the status, and the body where it is JSON
  response : ℕ → Option Value → Answer

abbrev pub Client : Type 0
Client = List Sent → Sent → Answer

-- `protocol.tools_call` with a request id
unfoldable pub tools_call : String → Fields → String → Fields
tools_call name arguments request_id = field "jsonrpc" (str "2.0") (
    field "id" (str request_id) (
      field "method" (str "tools/call") (
        field "params" (obj (field "name" (str name) (field "arguments" (obj arguments) end)))
          end)))

-- `protocol.tools_list` with an id
pub tools_list : ℕ → Fields
tools_list id =
    field "jsonrpc" (str "2.0")
      (field "id" (num id) (field "method" (str "tools/list") (field "params" (obj end) end)))

pub record ProxyResponse : Type 0 where
  pub status_code : ℕ
  pub result : Option Value
  pub error_body : Option Value
  pub raw : Fields

-- A null is `None`.
abbrev not_null : Option Value → Option Value
not_null none = none
not_null (some null) = none
not_null (some v) = some v

-- `_post` after the answer
unfoldable pub read_answer : Answer → Result ProxyResponse
read_answer timeout = raise (error ErrorKind.downstream_error "downstream_timeout")
read_answer http_error = raise (error ErrorKind.downstream_error "downstream_unreachable")
read_answer (response status none) = raise (error ErrorKind.downstream_error "downstream_malformed")
read_answer (response status (some (obj body))) = ok record {
  status_code = status;
  result = not_null (get "result" body);
  error_body = not_null (get "error" body);
  raw = body;
}
read_answer (response status (some v)) =
    raise (error ErrorKind.downstream_error "downstream_malformed")

-- `McpProxy.call_tool`: the request that it posts
unfoldable pub request_of : Route → Fields → List (String × String) → String → Sent
request_of route arguments headers request_id = record {
  url = url route;
  payload = tools_call route.tool.name arguments request_id;
  headers = ("Content-Type", "application/json") ∷ headers;
}

-- `v.get(k)` on a value that may be no dict
abbrev dict_get : String → Value → Result (Option Value)
dict_get k (obj fs) = ok (get k fs)
dict_get k v = raise (python_error "AttributeError")

abbrev as_truth : Result (Option Value) → Result Bool
as_truth (ok o) = ok (get_truthy o)
as_truth (raise e) = raise e

-- `bool(result and result.get("isError"))`
abbrev pub flagged : Option Value → Result Bool
flagged none = ok false
flagged (some v) = if value_truthy v then as_truth (dict_get "isError" v) else ok false

-- `ProxyResponse.is_error`
unfoldable pub is_error : ProxyResponse → Result Bool
is_error r = if is_some r.error_body then ok true else flagged r.result

-- `str(v)`, with that of the values that are no texts given
abbrev text_with : (Value → String) → Value → String
text_with to_text (str s) = s
text_with to_text v = to_text v

abbrev reported : String
reported = "downstream reported an error"

-- the text of the first part of the content
abbrev pub content_text : (Value → String) → Value → Result String
content_text to_text (arr (cons (obj part) rest)) =
    ok (text_with to_text (get_or (str reported) (get "text" part)))
content_text to_text (num n) = raise (python_error "TypeError")
content_text to_text (bool b) = raise (python_error "TypeError")
content_text to_text (obj fs) = raise (python_error "KeyError")
content_text to_text v = ok reported

abbrev pub content_message : (Value → String) → Option Value → Result String
content_message to_text none = ok reported
content_message to_text (some v) = if value_truthy v then content_text to_text v else ok reported

abbrev pub some_text : Result String → Result (Option String)
some_text (ok s) = ok (some s)
some_text (raise e) = raise e

-- the message that a result carries
abbrev pub result_message : (Value → String) → Option Value → Result (Option String)
result_message to_text (some (obj fs)) =
    if get_truthy (get "isError" fs)
    then some_text (content_message to_text (get "content" fs))
    else ok none
result_message to_text none = ok none
result_message to_text (some v) =
    if value_truthy v then raise (python_error "AttributeError") else ok none

abbrev pub error_message : (Value → String) → Value → Result (Option String)
error_message to_text (obj fs) = ok (some (text_with to_text (get_or (obj fs) (get "message" fs))))
error_message to_text v = raise (python_error "AttributeError")

abbrev pub error_or :
    (Value → String) → Option Value → Result (Option String) → Result (Option String)
error_or to_text none other = other
error_or to_text (some v) other = if value_truthy v then error_message to_text v else other

-- `_downstream_error_message`
unfoldable pub downstream_error_message : (Value → String) → ProxyResponse → Result (Option String)
downstream_error_message to_text r = error_or to_text r.error_body (result_message to_text r.result)
