-- ===== src/Sdk/Verifier.antt =====
-- agentid/sdk/server/verifier.py and middleware.py: a downstream server verifies the credential of
-- every request that is not for a public path. A rejection carries the code of the error.
use agentid_mcp_gateway.Prelude.{
  ℕ, ◌+◌, ◌/◌, ◌<◌, String, Bool, false, not, ◌&&◌, ◌||◌, Option, none, some, List, [], ◌∷◌, ◌==◌,
  ◌≡◌, refl, arith, eq_iff, contains, is_empty, truthy, partition, lower, strip, if◌then◌else◌,
}
use agentid_mcp_gateway.Context.{text_of}
use agentid_mcp_gateway.Jwt.{
  Payload, Jwt, Decoded, valid, expired_signature, invalid_audience, invalid_issuer, invalid_token,
}
use agentid_mcp_gateway.Identity.Tokens.{downstream}
use agentid_mcp_gateway.Sdk.Claims.{GatewayClaims, from_payload}

pub record TokenVerifier : Type 0 where
  pub secret : String
  pub audience : String
  pub issuer : String
  pub leeway_seconds : ℕ

-- the claims, or the code of the `VerificationError`
pub data Verified (A : Type 0) : Type 0 where
  accepted : A → Verified A
  rejected : String → Verified A

-- A missing type is not that of a downstream token.
abbrev is_downstream : Option String → Bool
is_downstream none = false
is_downstream (some t) = t == downstream

verified : Decoded → Verified GatewayClaims
verified (valid p) =
    if is_downstream p.typ then accepted (from_payload p) else rejected "wrong_token_type"
verified expired_signature = rejected "token_expired"
verified invalid_audience = rejected "invalid_audience"
verified invalid_issuer = rejected "invalid_issuer"
verified invalid_token = rejected "invalid_token"

-- `TokenVerifier.verify`; `now` is in microseconds
unfoldable pub verify : Jwt → TokenVerifier → ℕ → String → Verified GatewayClaims
unfolding verified
verify jwt v now token =
    verified (jwt.decode (now / 1000000) v.leeway_seconds token v.secret v.audience v.issuer)

unfoldable pub verify_header : Jwt → TokenVerifier → ℕ → Option String → Verified GatewayClaims
verify_header jwt v now header =
    if not (truthy header)
    then rejected "missing_credential"
    else let (scheme, token) = partition b' ' (text_of header) in
      if not (lower scheme == "bearer") || token == ""
      then rejected "malformed_credential"
      else verify jwt v now (strip token)

-- `require_scope`: claims without scopes pass
pub require_scope : GatewayClaims → String → Verified (Unit {0})
require_scope claims scope =
    if not (is_empty claims.scopes) && not (contains scope claims.scopes)
    then rejected "missing_scope"
    else accepted tt

-- What the middleware does with a request: it goes on to the application, with the claims where the
-- path is not public, or it is answered by the status 401.
pub data Admission : Type 0 where
  public_route : Admission
  admitted : GatewayClaims → Admission
  unauthorized : String → Admission

abbrev pub admission : Verified GatewayClaims → Admission
admission (accepted claims) = admitted claims
admission (rejected code) = unauthorized code

abbrev pub default_public_paths : List String
default_public_paths = "/health" ∷ "/healthz" ∷ "/openapi.json" ∷ "/docs" ∷ "/redoc" ∷ []

unfoldable pub gateway_auth :
    Jwt → TokenVerifier → List String → ℕ → String → Option String → Admission
gateway_auth jwt v public_paths now path header =
    if contains path public_paths then public_route else admission (verify_header jwt v now header)

module _ (jwt : Jwt) (v : TokenVerifier) (now : ℕ) where
  verified-accepted :
      (r : Decoded) {c : GatewayClaims}
      → verified r ≡ accepted c
      → (p : Payload) × (r ≡ valid p) × (c ≡ from_payload p) × (p.typ ≡ some downstream)
  unfolding verified
  verified-accepted (valid p) {c} h = typed p.typ refl
    where
      typed :
          (t : Option String)
          → p.typ ≡ t
          → (p' : Payload) × (valid p ≡ valid p')
            × (c ≡ from_payload p')
            × (p'.typ ≡ some downstream)
      typed none e = absurd (ground arith)
      typed (some t) e =
          (p, refl, ground (arith, eq_iff t downstream), ground (arith, eq_iff t downstream))
  verified-accepted expired_signature h = absurd (ground arith)
  verified-accepted invalid_audience h = absurd (ground arith)
  verified-accepted invalid_issuer h = absurd (ground arith)
  verified-accepted invalid_token h = absurd (ground arith)

  -- A downstream server accepts only a downstream token that was minted for its own audience by its
  -- own issuer and has not expired, up to the leeway.
  pub verify_sound :
      (token : String) {c : GatewayClaims}
      → verify jwt v now token ≡ accepted c
      → (c.audience ≡ v.audience)
        × (c.issuer ≡ v.issuer)
        × ((p : Payload) × (c ≡ from_payload p)
            × (p.typ ≡ some downstream)
            × (now / 1000000 < p.exp + v.leeway_seconds))
  unfolding verify from_payload
  verify_sound token h =
      let d = jwt.decode (now / 1000000) v.leeway_seconds token v.secret v.audience v.issuer in
      let (p, e, same, typed) = verified-accepted d h in
      let (aud, iss, fresh) =
        jwt.decode-valid (now / 1000000) v.leeway_seconds token v.secret v.audience v.issuer p e in
      (rw same aud, rw same iss, (p, same, typed, fresh))
