-- ===== src/Sdk/Claims/Chain.antt =====
-- The identity chain survives the token: what a downstream server reads from the credential that the
-- gateway mints for a call is the chain of the call.
use agentid_mcp_gateway.Prelude.{
  ℕ, String, true, false, ◌||◌, Option, none, some, List, ◌++◌, ◌≡◌, refl, inl, inr, arith, eq_iff,
  is_empty, truthy, ◌or_else◌, Bool-cases,
}
use mathlib.Core.Path.{◌∙◌, ap}
use agentid_mcp_gateway.Config.{Settings}
use agentid_mcp_gateway.Context.{text_of, part}
use agentid_mcp_gateway.Errors.{ok}
use agentid_mcp_gateway.Jwt.{Payload}
use agentid_mcp_gateway.Models.{Persona}
use agentid_mcp_gateway.Identity.Delegation.{describe_chain}
use agentid_mcp_gateway.Identity.Tokens.{
  if_truthy, downstream_claims, downstream_payload, downstream_payload-ok,
}
use agentid_mcp_gateway.Sdk.Claims.{GatewayClaims, from_payload, human_user, identity_chain}

if_truthy_idem : (o : Option String) → if_truthy (if_truthy o) ≡ if_truthy o
if_truthy_idem none = refl
if_truthy_idem (some t) = ground arith

truthy_subject :
    (o : Option String) (t : String) → o ≡ some t → truthy o ≡ true → some t ≡ if_truthy o
truthy_subject o t e h = ground arith

part-if_truthy : (o : Option String) → part (if_truthy o) ≡ part o
part-if_truthy none = refl
part-if_truthy (some t) = ground arith

part_of_eq : (o o' : Option String) → if_truthy o ≡ if_truthy o' → part o ≡ part o'
part_of_eq o o' h = part_same o ∙ ap part h ∙ part-if_truthy o'
  where
    part_same : (x : Option String) → part x ≡ part (if_truthy x)
    part_same none = refl
    part_same (some t) = ground arith

parts_named :
    (user agent sa : Option String)
    → (truthy sa || (truthy user || truthy agent)) ≡ true
    → is_empty (part user ++ part agent ++ part sa) ≡ false
parts_named user agent sa h = elim (Bool-cases (truthy user)) [
  | inl u ↦ rw u refl
  | inr u ↦ elim (Bool-cases (truthy agent)) [
    | inl a ↦ rw (u, a) refl
    | inr a ↦ rw (u, a) (ground arith)
  ]
]

module _ (s : Settings) (now : ℕ) (jti server_name : String)
    (audience user agent sa : Option String) (persona : Persona) (tool request_id : Option String)
    (scopes : List String) (ttl : Option ℕ) where
  abbrev claims : String → GatewayClaims
  claims subject = from_payload (
      downstream_claims s now jti server_name audience user agent sa persona tool request_id scopes
        ttl subject)

  human_of_claims :
      (subject : String)
      → (sa or_else user or_else agent) ≡ some subject
      → if_truthy (human_user (claims subject)) ≡ if_truthy user
  unfolding downstream_claims from_payload human_user
  human_of_claims subject e = elim (Bool-cases (truthy sa)) [
    | inl a ↦ rw a (if_truthy_idem user)
    | inr a ↦ elim (Bool-cases (truthy user)) [
      | inl b ↦
          rw (a, b)
            (let same : user ≡ some subject = ground arith in
              ground (arith, eq_iff subject (text_of user)))
      | inr b ↦ rw (a, b) refl
    ]
  ]

  -- The chain that the downstream server reads from the credential of a call is the chain of the
  -- call: the human, the acting agent and the service account, those that there are.
  pub identity_chain_kept :
      (p : Payload)
      → (truthy sa || (truthy user || truthy agent)) ≡ true
      → downstream_payload s now jti server_name audience user agent sa persona tool request_id
          scopes ttl
        ≡ ok p
      → identity_chain (from_payload p) ≡ describe_chain user agent sa
  unfolding identity_chain describe_chain downstream_claims from_payload
  identity_chain_kept p named minted =
      let (subject, e, same) =
        downstream_payload-ok s now jti server_name audience user agent sa persona tool request_id
          scopes ttl minted in
      rw
        (
          same,
          part_of_eq (human_user (claims subject)) user (human_of_claims subject e),
          agent_part subject,
          account_part subject,
          parts_named user agent sa named,
        )
        refl
    where
      agent_part : (subject : String) → part (claims subject).agent ≡ part agent
      agent_part subject =
          part_of_eq (if_truthy (if_truthy agent)) agent
            (if_truthy_idem (if_truthy agent) ∙ if_truthy_idem agent)

      account_part : (subject : String) → part (claims subject).service_account ≡ part sa
      account_part subject = part-if_truthy sa
