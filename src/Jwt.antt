-- ===== src/Jwt.antt =====
-- What the program uses of the JWT library, and the payload of a token. A payload is the dict of
-- its claims: a claim that the code may leave out is optional. Times are in whole seconds.
use agentid_mcp_gateway.Prelude.{ℕ, ◌+◌, ◌<◌, String, Option, ◌≡◌}
use agentid_mcp_gateway.Models.{Persona}

pub record Payload : Type 0 where
  pub iss : String
  pub aud : String
  pub sub : String
  pub persona : Option Persona
  pub typ : Option String
  pub iat : ℕ
  pub exp : ℕ
  pub jti : String
  pub scope : Option String
  pub sub_type : Option String
  pub sid : Option String
  pub did : Option String
  pub act_sub : Option String
  pub on_behalf_of : Option String
  pub execution_identity : Option String
  pub tool : Option String
  pub rid : Option String

-- The answers of `jwt.decode`: the payload, or one of its exceptions.
pub data Decoded : Type 0 where
  valid : Payload → Decoded
  expired_signature invalid_audience invalid_issuer invalid_token : Decoded

-- The library. `decode` is given the time, the leeway, the token, the key, the audience and the
-- issuer; it is documented to return only payloads of that audience and issuer that have not expired.
pub record Jwt : Type 0 where
  pub encode : Payload → String → String
  pub decode : ℕ → ℕ → String → String → String → String → Decoded
  pub decode-valid :
      (now leeway : ℕ) (token key audience issuer : String) (p : Payload)
      → decode now leeway token key audience issuer ≡ valid p
      → (p.aud ≡ audience) × (p.iss ≡ issuer) × (now < p.exp + leeway)
