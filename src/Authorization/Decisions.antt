-- ===== src/Authorization/Decisions.antt =====
-- agentid/authorization/decisions.py: a decision says why a request is allowed or denied. The
-- texts for a human reader are left out here and in the engine.
use agentid_mcp_gateway.Prelude.{String, Bool, true, false, Option, none, some}
use agentid_mcp_gateway.Json.{Value, str, Fields, end, field, field_if_some}

pub data Effect : Type 0 where
  allow deny : Effect

pub data Reason : Type 0 where
  allowed unauthenticated missing_permission explicit_deny agent_not_permitted : Reason
  exceeds_user_permissions service_account_not_authorized service_account_not_permitted : Reason
  service_account_required delegation_required delegation_invalid persona_violation : Reason
  identity_disabled unknown_tool server_disabled tool_disabled missing_scope : Reason

pub reason_value : Reason → String
reason_value Reason.allowed = "allowed"
reason_value Reason.unauthenticated = "unauthenticated"
reason_value Reason.missing_permission = "missing_permission"
reason_value Reason.explicit_deny = "explicit_deny"
reason_value Reason.agent_not_permitted = "agent_not_permitted"
reason_value Reason.exceeds_user_permissions = "exceeds_user_permissions"
reason_value Reason.service_account_not_authorized = "service_account_not_authorized"
reason_value Reason.service_account_not_permitted = "service_account_not_permitted"
reason_value Reason.service_account_required = "service_account_required"
reason_value Reason.delegation_required = "delegation_required"
reason_value Reason.delegation_invalid = "invalid_delegation"
reason_value Reason.persona_violation = "persona_violation"
reason_value Reason.identity_disabled = "identity_disabled"
reason_value Reason.unknown_tool = "unknown_tool"
reason_value Reason.server_disabled = "server_disabled"
reason_value Reason.tool_disabled = "tool_disabled"
reason_value Reason.missing_scope = "missing_scope"

pub record Decision : Type 0 where
  pub effect : Effect
  pub reason : Reason
  pub policy : Option String
  pub permission : Option String
  pub tool : Option String
  pub server : Option String
  pub execution_identity : Option String
  pub service_account_id : Option String
  pub details : Fields

abbrev pub is_allow : Effect → Bool
is_allow Effect.allow = true
is_allow Effect.deny = false

-- `Decision.allowed`
abbrev pub is_allowed : Decision → Bool
is_allowed d = is_allow d.effect

-- The fields that the engine puts into nearly every decision.
pub record Base : Type 0 where
  pub tool : Option String
  pub server : Option String
  pub permission : Option String

abbrev pub no_base : Base
no_base = record { tool = none; server = none; permission = none }

-- `Decision.deny` with a policy and details
abbrev pub deny_with : Base → Reason → Option String → Fields → Decision
deny_with base reason policy details = record {
  effect = Effect.deny;
  reason = reason;
  policy = policy;
  permission = base.permission;
  tool = base.tool;
  server = base.server;
  execution_identity = none;
  service_account_id = none;
  details = details;
}

-- `Decision.deny`
abbrev pub deny_bare : Base → Reason → Decision
deny_bare base reason = deny_with base reason none end

-- `Decision.allow`, with the identity that the call runs as
abbrev pub allow_as : Base → Option String → String → Option String → Fields → Decision
allow_as base policy execution_identity service_account_id details = record {
  effect = Effect.allow;
  reason = Reason.allowed;
  policy = policy;
  permission = base.permission;
  tool = base.tool;
  server = base.server;
  execution_identity = some execution_identity;
  service_account_id = service_account_id;
  details = details;
}

abbrev pub effect_value : Effect → String
effect_value Effect.allow = "allow"
effect_value Effect.deny = "deny"

abbrev nonempty_details : Fields → Fields
nonempty_details end = end
nonempty_details (field k v fs) = field "details" (Value.obj (field k v fs)) end

-- `Decision.to_dict`
pub to_dict : Decision → Fields
unfolding reason_value
to_dict d = field "decision" (str (effect_value d.effect)) (
    field "reason" (str (reason_value d.reason)) (
      field_if_some "policy" d.policy (
        field_if_some "permission" d.permission (
          field_if_some "tool" d.tool (
            field_if_some "server" d.server (
              field_if_some "execution_identity" d.execution_identity
                (nonempty_details d.details)))))))
