-- ===== src/Tests/Identity.antt =====
-- agentid/identity and the SDK of the servers at a small database.
use agentid_mcp_gateway.Prelude.{
  String, Bool, true, false, Option, none, some, [], ◌==◌, ◌≡◌, ◌<◌, ◌/◌, ◌+◌, refl, lower, strip,
  has_char,
}
use agentid_mcp_gateway.Config.{default_settings}
use agentid_mcp_gateway.Errors.{ok}
use agentid_mcp_gateway.Jwt.{Payload}
use agentid_mcp_gateway.Models.{Db, Persona, session_is_active}
use agentid_mcp_gateway.Identity.Users.{
  authenticate_user, authenticate_user_sound, get_user_by_email, normal_email,
}
use agentid_mcp_gateway.Identity.Agents.{
  require_agent, user_may_delegate_to, get_agent, get_agent_by_name,
}
use agentid_mcp_gateway.Identity.Sessions.{
  get_session, require_active_session, require_active_session_sound,
}
use agentid_mcp_gateway.Identity.Delegation.{
  DelegationResult, delegate, issue_delegation, describe_chain, require_active_delegation,
  require_active_delegation_sound, get_delegation, delegation_target,
}
use agentid_mcp_gateway.Identity.ApiKeys.{parse_api_key, plaintext, parse_api_key-plaintext}
use agentid_mcp_gateway.Identity.Tokens.{downstream, downstream_payload, downstream_claims}
use agentid_mcp_gateway.Sdk.Claims.{from_payload, identity_chain}
use agentid_mcp_gateway.Sdk.Claims.Chain.{identity_chain_kept}
use agentid_mcp_gateway.Sdk.Verifier.{TokenVerifier, verify, accepted, verify_sound}
use agentid_mcp_gateway.Tests.Data.{db, alice, helper, login_session, delegation, jwt_of}

check_hash : String → Option String → Bool
check_hash password none = false
check_hash password (some h) = h == "hash"

alice_logs_in : authenticate_user check_hash db "alice@example.com" "pw" ≡ ok alice
unfolding check_hash authenticate_user get_user_by_email normal_email lower strip
alice_logs_in = refl

authenticate_user_sound_example :
    (get_user_by_email db "alice@example.com" ≡ some alice)
    × (check_hash "pw" (some "hash") ≡ true)
    × (alice.is_active ≡ true)
authenticate_user_sound_example =
    authenticate_user_sound check_hash db "alice@example.com" "pw" alice_logs_in

session_found : require_active_session 10 db "ses_1" ≡ ok login_session
unfolding require_active_session get_session session_is_active
session_found = refl

require_active_session_sound_example :
    (get_session db "ses_1" ≡ some login_session)
    × (login_session.revoked_at ≡ none)
    × (10 < login_session.expires_at)
require_active_session_sound_example = require_active_session_sound 10 db "ses_1" session_found

delegation_found : require_active_delegation 10 db "dlg_1" ≡ ok delegation
unfolding require_active_delegation get_delegation
delegation_found = refl

require_active_delegation_sound_example :
    (get_delegation db "dlg_1" ≡ some delegation)
    × (delegation.revoked ≡ false)
    × (10 < delegation.expires_at)
require_active_delegation_sound_example =
    require_active_delegation_sound 10 db "dlg_1" delegation_found

parse_api_key-plaintext_example :
    parse_api_key default_settings (plaintext default_settings "a1b2" "s3cret")
    ≡ ok ("a1b2", "s3cret")
unfolding has_char
parse_api_key-plaintext_example =
    parse_api_key-plaintext default_settings "a1b2" "s3cret" refl refl refl

abbrev minted : Payload
minted =
    downstream_claims default_settings 0 "jti_9" "github" none (some "usr_alice")
      (some "agt_helper") (some "svc_deploy") Persona.user none none [] none "svc_deploy"

is_minted :
    downstream_payload default_settings 0 "jti_9" "github" none
      (some "usr_alice")
      (some "agt_helper")
      (some "svc_deploy")
      Persona.user
      none
      none
      []
      none
    ≡ ok minted
unfolding downstream_payload
is_minted = refl

identity_chain_kept_example :
    identity_chain (from_payload minted)
    ≡ describe_chain (some "usr_alice") (some "agt_helper") (some "svc_deploy")
identity_chain_kept_example =
    identity_chain_kept default_settings 0 "jti_9" "github" none (some "usr_alice")
      (some "agt_helper") (some "svc_deploy") Persona.user none none [] none minted refl is_minted

abbrev issued : DelegationResult × Db
issued = issue_delegation default_settings 0 1 "dlg_9" "jti_9" alice helper none [] none db

delegated_to_helper :
    delegate default_settings 0 1 "dlg_9" "jti_9" alice "helper" none [] none db
    ≡ ok (issued.0, issued.1)
unfolding delegate delegation_target require_agent get_agent get_agent_by_name user_may_delegate_to
delegated_to_helper = refl

abbrev github_verifier : TokenVerifier
github_verifier = record {
  secret = default_settings.secret_key;
  audience = "agentid-mcp:github";
  issuer = "agentid";
  leeway_seconds = 0;
}

token_accepted : verify (jwt_of minted) github_verifier 0 "token" ≡ accepted (from_payload minted)
unfolding verify downstream_claims
token_accepted = refl

verify_sound_example :
    ((from_payload minted).audience ≡ "agentid-mcp:github")
    × ((from_payload minted).issuer ≡ "agentid")
    × ((p : Payload) × (from_payload minted ≡ from_payload p)
        × (p.typ ≡ some downstream)
        × (0 / 1000000 < p.exp + 0))
verify_sound_example = verify_sound (jwt_of minted) github_verifier 0 "token" token_accepted
