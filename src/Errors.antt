-- ===== src/Errors.antt =====
-- The exceptions of agentid/errors.py, and the two forms of fallible code: a function that only
-- reads returns a `Result`; one that writes is an `Exec`, whose state comes back beside the
-- exception, since what was written before a raise stays written.
pub mod Exec
pub mod Holds
pub mod Fails
use agentid_mcp_gateway.Prelude.{ℕ, String, ◌≡◌, refl, arith, Bool, true, false, if◌then◌else◌}

-- One constructor for each class.
pub data ErrorKind : Type 0 where
  agentid_error authentication_error authorization_error persona_violation delegation_error :
      ErrorKind
  credential_error not_found_error conflict_error validation_error rate_limit_exceeded : ErrorKind
  downstream_error : ErrorKind

-- An exception of the program with the code that it carries, the refusal by the database of a row
-- that breaks a unique constraint, or an exception of the language, by the name of its class; the
-- last two are no `AgentIDError`.
pub data Exception : Type 0 where
  error : ErrorKind → String → Exception
  integrity_error : Exception
  python_error : String → Exception

unfoldable pub status_code : ErrorKind → ℕ
status_code ErrorKind.agentid_error = 500
status_code ErrorKind.authentication_error = 401
status_code ErrorKind.authorization_error = 403
status_code ErrorKind.persona_violation = 403
status_code ErrorKind.delegation_error = 403
status_code ErrorKind.credential_error = 502
status_code ErrorKind.not_found_error = 404
status_code ErrorKind.conflict_error = 409
status_code ErrorKind.validation_error = 422
status_code ErrorKind.rate_limit_exceeded = 429
status_code ErrorKind.downstream_error = 502

-- The code of an exception that is raised without one of its own.
pub default_code : ErrorKind → String
default_code ErrorKind.agentid_error = "internal_error"
default_code ErrorKind.authentication_error = "unauthenticated"
default_code ErrorKind.authorization_error = "forbidden"
default_code ErrorKind.persona_violation = "persona_violation"
default_code ErrorKind.delegation_error = "invalid_delegation"
default_code ErrorKind.credential_error = "credential_unavailable"
default_code ErrorKind.not_found_error = "not_found"
default_code ErrorKind.conflict_error = "conflict"
default_code ErrorKind.validation_error = "invalid_request"
default_code ErrorKind.rate_limit_exceeded = "rate_limited"
default_code ErrorKind.downstream_error = "downstream_error"

pub data Result {ℓ} (A : Type ℓ) : Type ℓ where
  ok : A → Result A
  raise : Exception → Result A

-- a step after a result, which an exception skips
infixl 5 ◌>>=◌ ◌>>◌
abbrev pub ◌>>=◌ {ℓ κ} : {A : Type ℓ} {B : Type κ} → Result A → (A → Result B) → Result B
raise x >>= next = raise x
ok value >>= next = next value

-- a check, and what comes after it
abbrev pub ◌>>◌ {κ} : {B : Type κ} → Result (Unit {0}) → Result B → Result B
check >> rest = check >>= λ _. rest

-- `if b: raise kind(code=code)`
abbrev pub raise_if : Bool → ErrorKind → String → Result (Unit {0})
raise_if b kind code = if b then raise (error kind code) else ok tt

-- Code that succeeds has succeeded in its first step, and its second step has from that value.
module _ {ℓ κ} {A : Type ℓ} {B : Type κ} where
  pub >>=-eq-ok :
      (first : Result A) (next : A → Result B) {result : B}
      → (first >>= next) ≡ ok result
      → (value : A) × (first ≡ ok value) × (next value ≡ ok result)
  >>=-eq-ok (raise x) next h = absurd (ground arith)
  >>=-eq-ok (ok value) next h = (value, refl, h)

-- What a passed check says.
pub raise_if-eq-ok :
    (b : Bool) (kind : ErrorKind) (code : String) {u : Unit {0}}
    → raise_if b kind code ≡ ok u
    → b ≡ false
raise_if-eq-ok b kind code h = ground arith
