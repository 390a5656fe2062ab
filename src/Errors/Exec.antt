-- ===== src/Errors/Exec.antt =====
-- Actions on a state that may raise: methods that write to the database or to an object.
use agentid_mcp_gateway.Errors.{Result, ok, raise, ErrorKind, error}
use agentid_mcp_gateway.Prelude.{String, Bool, if◌then◌else◌}

abbrev pub Exec : Type 0 → Type 0 → Type 0
Exec S A = S → Result A × S

module _ {S A : Type 0} where
  abbrev pub pure : A → Exec S A
  pure a s = (ok a, s)

  abbrev pub throw : ErrorKind → String → Exec S A
  throw kind code s = (raise (error kind code), s)

  -- a function that only reads, as an action
  abbrev pub reading : (S → Result A) → Exec S A
  reading f s = (f s, s)

  abbrev pub gets : (S → A) → Exec S A
  gets f s = (ok (f s), s)

abbrev pub modify : {S : Type 0} → (S → S) → Exec S (Unit {0})
modify f s = (ok tt, f s)

abbrev pub throw_if : {S : Type 0} → Bool → ErrorKind → String → Exec S (Unit {0})
throw_if b kind code s = (if b then raise (error kind code) else ok tt, s)

abbrev pub continue : {S A B : Type 0} → Result A → (A → Exec S B) → S → Result B × S
continue (ok a) f s = f a s
continue (raise e) f s = (raise e, s)

infixl 5 ◌>>=◌ ◌>>◌
abbrev pub ◌>>=◌ : {S A B : Type 0} → Exec S A → (A → Exec S B) → Exec S B
◌>>=◌ m f s = let (r, s') = m s in continue r f s'

abbrev pub ◌>>◌ : {S B : Type 0} → Exec S (Unit {0}) → Exec S B → Exec S B
m >> k = m >>= λ _. k
