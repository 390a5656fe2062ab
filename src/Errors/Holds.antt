-- ===== src/Errors/Holds.antt =====
-- What holds of the value of a result, where there is one.
use agentid_mcp_gateway.Prelude.{◌≡◌}
use agentid_mcp_gateway.Errors.{Result, ok, raise, ◌>>=◌, ◌>>◌}

abbrev pub Holds : {A : Type 0} → (A → Type 0) → Result A → Type 0
Holds P (ok a) = P a
Holds P (raise e) = Unit {0}

pub Holds-ok : {A : Type 0} (P : A → Type 0) (r : Result A) {a : A} → Holds P r → r ≡ ok a → P a
Holds-ok P r h e = rw e at h

module _ {A B : Type 0} (P : A → Type 0) where
  -- a value that is bound by two results is that of the second
  pub Holds->>= : (m : Result B) (f : B → Result A) → ((b : B) → Holds P (f b)) → Holds P (m >>= f)
  Holds->>= (ok b) f h = h b
  Holds->>= (raise e) f h = tt

  -- the same, where the first value has a property
  pub Holds->>=-Holds :
      (Q : B → Type 0) (m : Result B) (f : B → Result A)
      → Holds Q m
      → ((b : B) → Q b → Holds P (f b))
      → Holds P (m >>= f)
  Holds->>=-Holds Q (ok b) f q h = h b q
  Holds->>=-Holds Q (raise e) f q h = tt

pub Holds->> :
    {A : Type 0} (P : A → Type 0) (m : Result (Unit {0})) (r : Result A)
    → Holds P r
    → Holds P (m >> r)
Holds->> P (ok u) r h = h
Holds->> P (raise e) r h = tt
