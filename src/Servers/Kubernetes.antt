-- ===== src/Servers/Kubernetes.antt =====
-- agentid/servers/kubernetes/server.py: namespaces, of which some are protected. The deletion of one is
-- only told of, so that the server has no state.
use agentid_mcp_gateway.Prelude.{
  ℕ, String, false, not, ◌&&◌, Option, none, some, List, [], ◌∷◌, ◌==◌, ◌+++◌, contains, find_first,
  join, if◌then◌else◌,
}
use agentid_mcp_gateway.Errors.{Exception}
use agentid_mcp_gateway.Json.{Fields, str, arr, obj, end, field, texts}
use agentid_mcp_gateway.Jwt.{Jwt}
use agentid_mcp_gateway.Sdk.Claims.{GatewayClaims, identity_chain}
use agentid_mcp_gateway.Sdk.Verifier.{TokenVerifier}
use agentid_mcp_gateway.Servers.Common.{
  Answer, Builtins, Handled, Handler, ToolSpec, argument, done, denied, serve, text_content,
  text_or, with_argument,
}

abbrev pub audience : String
audience = "agentid-mcp:kubernetes"

pub record Namespace : Type 0 where
  pub name : String
  pub pods : List String

-- `_NAMESPACES`
abbrev pub namespaces : List Namespace
namespaces =
    record { name = "default"; pods = "api-7f9" ∷ "worker-2c1" ∷ [] }
    ∷ record { name = "production"; pods = "api-prod-1" ∷ "api-prod-2" ∷ [] }
    ∷ record { name = "staging"; pods = "api-stg-1" ∷ [] }
    ∷ []

abbrev pub protected_namespaces : List String
protected_namespaces = "default" ∷ "production" ∷ []

unfoldable pub find_namespace : String → Option Namespace
find_namespace namespace = find_first (λ (n : Namespace). n.name == namespace) namespaces

-- the check that the namespace is there, before what needs its pods
abbrev in_namespace : String → (List String → Handled) → Handled
in_namespace namespace next = elim (find_namespace namespace) [
  | none ↦ denied ("unknown namespace: " +++ namespace) namespace
  | some n ↦ next n.pods
]

-- `pod or pods[0]`
abbrev target : String → List String → String
target pod [] = pod
target pod (p ∷ ps) = if pod == "" then p else pod

abbrev log_of : GatewayClaims → String → String → List String → Handled
log_of claims namespace pod pods =
    if not (pod == "") && not (contains pod pods)
    then denied ("unknown pod: " +++ pod) (namespace +++ "/" +++ pod)
    else done (
        text_content
          ("["
            +++ namespace
            +++ "/"
            +++ target pod pods
            +++ "] served 200 OK (log read by "
            +++ identity_chain claims
            +++ ")")
          false)

unfoldable pub get_logs : Builtins → Handler (Unit {0})
get_logs py claims arguments s =
    with_argument (argument "namespace" arguments) s (λ namespace_value.
      with_argument (argument "pod" arguments) s (λ pod_value.
        let namespace = text_or py "default" namespace_value in
        (in_namespace namespace (log_of claims namespace (text_or py "" pod_value)), s)))

unfoldable pub list_pods : Builtins → Handler (Unit {0})
list_pods py claims arguments s =
    with_argument (argument "namespace" arguments) s (λ namespace_value. (
      in_namespace (text_or py "default" namespace_value)
          (λ pods. done (text_content (join "\n" pods) false)),
      s,
    ))

unfoldable pub delete_namespace : Builtins → Handler (Unit {0})
delete_namespace py claims arguments s =
    with_argument (argument "namespace" arguments) s (λ namespace_value.
      let namespace = text_or py "" namespace_value in
      (
        if contains namespace protected_namespaces
            then denied (namespace +++ " is protected") namespace
            else in_namespace namespace (λ pods. done (
                text_content
                  ("deleted namespace " +++ namespace +++ " (by " +++ identity_chain claims +++ ")")
                  false)),
        s,
      ))

abbrev property : String → Fields → Fields
property name rest = field name (obj (field "type" (str "string") end)) rest

abbrev schema : Fields → Fields → Fields
schema properties rest = field "type" (str "object") (field "properties" (obj properties) rest)

-- `TOOLS`
abbrev pub tools : Builtins → List (ToolSpec (Unit {0}))
tools py =
    record {
      name = "get_logs";
      description = "Read logs for a pod";
      input_schema = schema (property "namespace" (property "pod" end)) end;
      handler = get_logs py;
    }
    ∷ record {
      name = "list_pods";
      description = "List pods in a namespace";
      input_schema = schema (property "namespace" end) end;
      handler = list_pods py;
    }
    ∷ record {
      name = "delete_namespace";
      description = "Delete a namespace (destructive)";
      input_schema =
          schema (property "namespace" end) (field "required" (arr (texts ("namespace" ∷ []))) end);
      handler = delete_namespace py;
    }
    ∷ []

-- the application of `create_app`
abbrev pub kubernetes_server :
    Builtins
    → (Exception → String)
    → Jwt
    → TokenVerifier
    → ℕ
    → String
    → Option String
    → Fields
    → Unit {0}
    → Answer × Unit {0}
kubernetes_server py message = serve py message (tools py)
