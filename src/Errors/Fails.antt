-- ===== src/Errors/Fails.antt =====
-- The exceptions that say that a caller is not authenticated.
use agentid_mcp_gateway.Prelude.{
  String, Bool, true, false, Option, none, some, ◌≡◌, ◌⊎◌, refl, inl, inr, if◌then◌else◌,
}
use agentid_mcp_gateway.Errors.{
  Result, ok, raise, error, Exception, ErrorKind, ◌>>=◌, raise_if, status_code,
}

-- an exception of the program whose status is 401 or 403
abbrev pub Denied : Exception → Type 0
Denied e =
    (kind : ErrorKind) × (code : String) × (e ≡ error kind code)
    × ((status_code kind ≡ 401) ⊎ (status_code kind ≡ 403))

pub Denied-identity : (code : String) → Denied (error ErrorKind.authentication_error code)
unfolding status_code
Denied-identity code = (ErrorKind.authentication_error, code, refl, inl refl)

pub Denied-persona : (code : String) → Denied (error ErrorKind.persona_violation code)
unfolding status_code
Denied-persona code = (ErrorKind.persona_violation, code, refl, inr refl)

pub Denied-delegation : (code : String) → Denied (error ErrorKind.delegation_error code)
unfolding status_code
Denied-delegation code = (ErrorKind.delegation_error, code, refl, inr refl)

-- where the result is an exception, it is such a one
abbrev pub Fails : {A : Type 0} → Result A → Type 0
Fails (ok a) = Unit {0}
Fails (raise e) = Denied e

pub Fails-raise : {A : Type 0} (r : Result A) (e : Exception) → Fails r → r ≡ raise e → Denied e
Fails-raise r e h same = rw same at h

module _ {A B : Type 0} where
  pub Fails->>= :
      (m : Result B) (f : B → Result A) → Fails m → ((b : B) → Fails (f b)) → Fails (m >>= f)
  Fails->>= (ok b) f h next = next b
  Fails->>= (raise e) f h next = h

pub Fails-raise_if :
    (b : Bool) (kind : ErrorKind) (code : String)
    → Denied (error kind code)
    → Fails (raise_if b kind code)
Fails-raise_if true kind code h = h
Fails-raise_if false kind code h = tt

pub Fails-if :
    {A : Type 0} (b : Bool) (r r' : Result A) → Fails r → Fails r' → Fails (if b then r else r')
Fails-if true r r' h h' = h
Fails-if false r r' h h' = h'

pub Fails-option :
    {A B : Type 0} (o : Option B) (r : Result A) (f : B → Result A)
    → Fails r
    → ((b : B) → Fails (f b))
    → Fails (elim o [ none ↦ r | some b ↦ f b ])
Fails-option none r f h next = h
Fails-option (some b) r f h next = next b
