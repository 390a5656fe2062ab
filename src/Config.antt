-- ===== src/Config.antt =====
-- agentid/config.py: the settings that the modelled code reads.
use agentid_mcp_gateway.Prelude.{ℕ, String, Bool, true, Option, none, truthy, if◌then◌else◌}
use agentid_mcp_gateway.Context.{text_of}

pub record Settings : Type 0 where
  pub secret_key : String
  pub jwt_issuer : String
  pub jwt_audience : String
  pub downstream_audience_prefix : String
  pub access_token_ttl_seconds : ℕ
  pub delegated_token_ttl_seconds : ℕ
  pub downstream_token_ttl_seconds : ℕ
  pub session_ttl_seconds : ℕ
  pub credential_encryption_key : Option String
  pub rate_limit_enabled : Bool
  pub rate_limit_requests : ℕ
  pub rate_limit_window_seconds : ℕ
  pub api_key_prefix : String

-- The defaults of the source.
abbrev pub default_settings : Settings
default_settings = record {
  secret_key = "dev-only-insecure-secret-change-me";
  jwt_issuer = "agentid";
  jwt_audience = "agentid-gateway";
  downstream_audience_prefix = "agentid-mcp";
  access_token_ttl_seconds = 3600;
  delegated_token_ttl_seconds = 900;
  downstream_token_ttl_seconds = 120;
  session_ttl_seconds = 86400;
  credential_encryption_key = none;
  rate_limit_enabled = true;
  rate_limit_requests = 120;
  rate_limit_window_seconds = 60;
  api_key_prefix = "aid_sk_";
}

pub vault_key : Settings → String
vault_key s =
    if truthy s.credential_encryption_key then text_of s.credential_encryption_key else s.secret_key
