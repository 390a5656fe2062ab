-- ===== src/Credentials/Manager/Ownership.antt =====
-- agentid/credentials/manager.py: whose secret a call carries, whether it comes from the cache, from the stored
-- row, or from the provider that refreshes it.
use agentid_mcp_gateway.Prelude.{
  ℕ, String, true, Option, none, some, List, [], ◌∷◌, ◌++◌, ◌≡◌, ◌⊎◌, refl, arith, inl, inr, All,
  All-select, All-update_where, All-find_first, find_first, Bool-cases, Option-cases, eq_iff, leb,
  ◌+◌,
}
use agentid_mcp_gateway.Config.{vault_key}
use agentid_mcp_gateway.Context.{RequestContext}
use agentid_mcp_gateway.Errors.{Result, ok, raise, ErrorKind}
use agentid_mcp_gateway.Errors
use agentid_mcp_gateway.Errors.Exec.{Exec, continue, pure}
use agentid_mcp_gateway.Errors.Holds.{Holds}
use agentid_mcp_gateway.Identity.Sessions.{seconds}
use agentid_mcp_gateway.Json.{get_truthy}
use agentid_mcp_gateway.Models.{Db, Credential, CredentialType, IdentityType, McpServer}
use agentid_mcp_gateway.Credentials.Cache.{
  Entry, Key, cache_get, cache_set, invalidate, lookup, same_key,
}
use agentid_mcp_gateway.Credentials.Secrets.{
  SecretMaterial, as_header, open_vault, payload_from_secret, refresh, seal_vault,
}
use agentid_mcp_gateway.Credentials.Manager.{
  Manager, Holdings, ResolvedCredential, builder, cache_key, cached, candidates,
  exchange_for_downstream, find_credential, first_owned, gateway_headers, is_expired, is_nothing,
  materialise, opened, owned_by, persisted, refreshed, resolve,
}
use agentid_mcp_gateway.Credentials.Manager.Choice.{find_credential-may_carry, may_carry}

-- the secret that is read from a sealed payload
abbrev pub built : Manager → CredentialType → String → Result SecretMaterial
built m t ciphertext =
    Errors.◌>>=◌ (open_vault m.library (vault_key m.settings) ciphertext) (builder m.library t)

abbrev holds_cached : Result (Option SecretMaterial) → Option SecretMaterial
holds_cached (ok o) = o
holds_cached (raise e) = none

-- `P i s` says that the secret belongs to the credential with the id.
module _ (m : Manager) (P : String → SecretMaterial → Type 0) where
  abbrev pub OwnRow : Credential → Type 0
  OwnRow c = (s : SecretMaterial) → built m c.credential_type c.ciphertext ≡ ok s → P c.id s

  abbrev pub OwnEntry : Key × Entry SecretMaterial → Type 0
  OwnEntry e = P e.0.0 e.1.value

  -- what is stored in a row belongs to its credential, and what is cached to the credential of its key
  pub record Owned (h : Holdings) : Type 0 where
    pub rows : All OwnRow h.db.credentials
    pub entries : All OwnEntry h.cache.entries

  -- the secret that was found and what is left of the state
  abbrev Kept : {A : Type 0} → (A → Type 0) → Result A × Holdings → Type 0
  Kept Q (r, h) = Owned h × Holds Q r

  -- a continuation of any result
  Kept-continue :
      {A B : Type 0} (Q : B → Type 0) (r : Result A) (f : A → Exec Holdings B) (h : Holdings)
      → Owned h
      → ((a : A) → r ≡ ok a → Kept Q (f a h))
      → Kept Q (continue r f h)
  Kept-continue Q (ok a) f h own next = next a refl
  Kept-continue Q (raise e) f h own next = (own, tt)

  -- a continuation of an action that keeps the state
  Kept-after :
      {A B : Type 0} (Q : A → Type 0) (Q' : B → Type 0) (x : Result A × Holdings)
      (f : A → Exec Holdings B)
      → Kept Q x
      → ((a : A) (h : Holdings) → Q a → Owned h → Kept Q' (f a h))
      → Kept Q' (continue x.0 f x.1)
  Kept-after Q Q' (ok a, h) f (own, q) next = next a h q own
  Kept-after Q Q' (raise e, h) f (own, q) next = (own, tt)

  P-same : {i i' : String} {s s' : SecretMaterial} → i ≡ i' → s ≡ s' → P i s → P i' s'
  P-same a b own = rw (a, b) at own

  OwnEntry-lookup :
      (key : Key) (es : List (Key × Entry SecretMaterial)) {e : Entry SecretMaterial}
      → All OwnEntry es
      → lookup key es ≡ some e
      → P key.0 e.value
  OwnEntry-lookup key [] own found = absurd (ground arith)
  OwnEntry-lookup key ((k, x) ∷ es) {e} (own, rest) found = elim (Bool-cases (same_key k key)) [
    | inl same ↦ P-same (ground (arith, eq_iff k.0 key.0)) (ground arith) own
    | inr other ↦ OwnEntry-lookup key es {e = e} rest (ground arith)
  ]

  OwnRow-first_owned :
      (id : String) (cs : List Credential) (owners : List (IdentityType × String)) {c : Credential}
      → All OwnRow cs
      → first_owned id cs owners ≡ some c
      → OwnRow c
  unfolding first_owned
  OwnRow-first_owned id cs [] own found = absurd (ground arith)
  OwnRow-first_owned id cs ((t, i) ∷ owners) {c} own found =
      elim (Option-cases (find_first (owned_by id t i) cs)) [
        | inl e ↦ OwnRow-first_owned id cs owners {c = c} own (ground arith)
        | inr (d, e) ↦ All-find_first OwnRow (owned_by id t i) cs {x = c} own (ground arith)
      ]

  OwnRow-find_credential :
      (db : Db) (ctx : RequestContext) (server : McpServer) {c : Credential}
      → All OwnRow db.credentials
      → find_credential db ctx server ≡ some c
      → OwnRow c
  unfolding find_credential
  OwnRow-find_credential db ctx server {c} own found =
      OwnRow-first_owned server.id db.credentials (candidates ctx server) {c = c} own found

  module _
      (rereads : (i : String) (s s' : SecretMaterial) (t : CredentialType)
        → P i s
        → built m t (seal_vault m.library (vault_key m.settings) (payload_from_secret m.library s))
          ≡ ok s'
        → P i s')
      (refreshes : (name i : String) (s s' : SecretMaterial)
        → P i s
        → refresh m.refresh_registry name s ≡ ok s'
        → P i s')
      (now : ℕ) where
    OwnRow-persisted :
        (s : SecretMaterial) (c : Credential) → P c.id s → OwnRow (persisted m now s c)
    OwnRow-persisted s c own s' h = elim (Bool-cases (get_truthy s.refresh_token)) [
      | inl e ↦ rw e (rereads c.id s s' c.credential_type own (rw e at h))
      | inr e ↦ rw e (rereads c.id s s' c.credential_type own (rw e at h))
    ]

    persisted-own : (s : SecretMaterial) (c : Credential) → P c.id s → P (persisted m now s c).id s
    persisted-own s c own = elim (Bool-cases (get_truthy s.refresh_token)) [
      | inl e ↦ rw e own
      | inr e ↦ rw e own
    ]

    module _ (server : McpServer) (row : Credential) where
      Kept-refreshed :
          (old : SecretMaterial) (h : Holdings)
          → Owned h
          → P row.id old
          → Kept (P row.id) (refreshed m now server row old h)
      unfolding cache_set invalidate
      Kept-refreshed old h own mine =
          Kept-continue (P row.id) (refresh m.refresh_registry server.name old) _ h own
            (λ secret found.
              let new = refreshes server.name row.id old secret mine found in
              (
                record {
                  rows =
                      All-update_where OwnRow _ _ (λ x hx e. OwnRow-persisted secret row new)
                        h.db.credentials own.rows;
                  entries = (
                    persisted-own secret row new,
                    All-select OwnEntry _ h.cache.entries own.entries,
                  );
                },
                new,
              ))

      Kept-opened :
          (h : Holdings) → Owned h → OwnRow row → Kept (P row.id) (opened m now server row h)
      unfolding cache_set
      Kept-opened h own row_own =
          Kept-continue (P row.id) (open_vault m.library (vault_key m.settings) row.ciphertext) _ h
            own
            (λ payload e.
              Kept-continue (P row.id) (builder m.library row.credential_type payload) _ h own
                (λ secret e'.
                  let mine = row_own secret (rw e e') in
                  elim (Bool-cases (is_expired now secret row)) [
                    | inl f ↦ rw f (Kept-refreshed secret h own mine)
                    | inr f ↦ rw f (record { rows = own.rows; entries = (mine, own.entries) }, mine)
                  ]))

      abbrev OwnOption : Option SecretMaterial → Type 0
      OwnOption none = Unit {0}
      OwnOption (some s) = P row.id s

      Kept-cached : (h : Holdings) → Owned h → Kept OwnOption (cached now (cache_key row) h)
      unfolding cache_get
      Kept-cached h own = elim (Option-cases (lookup (cache_key row) h.cache.entries)) [
        | inl e ↦ rw e (own, tt)
        | inr (x, e) ↦
            let mine = OwnEntry-lookup (cache_key row) h.cache.entries {e = x} own.entries e in
            elim (Bool-cases (leb x.expires_at (now + seconds h.cache.leeway_seconds))) [
              | inl f ↦
                  rw (e, f)
                    (
                      record {
                        rows = own.rows;
                        entries = All-select OwnEntry _ h.cache.entries own.entries;
                      },
                      tt,
                    )
              | inr f ↦ rw (e, f) (own, mine)
            ]
      ]

      -- how a lookup in the cache goes on
      abbrev cached_or_opened : Option SecretMaterial → Exec Holdings SecretMaterial
      cached_or_opened o = elim o [ some secret ↦ pure secret | none ↦ opened m now server row ]

      Kept-cached_or_opened :
          (o : Option SecretMaterial) (h : Holdings)
          → OwnOption o
          → Owned h
          → OwnRow row
          → Kept (P row.id) (cached_or_opened o h)
      Kept-cached_or_opened none h q own row_own = Kept-opened h own row_own
      Kept-cached_or_opened (some s) h q own row_own = (own, q)

      Kept-materialise :
          (h : Holdings) → Owned h → OwnRow row → Kept (P row.id) (materialise m now server row h)
      unfolding materialise
      Kept-materialise h own row_own =
          Kept-after OwnOption (P row.id) (cached now (cache_key row) h) cached_or_opened
            (Kept-cached h own) (λ o h' q own'. Kept-cached_or_opened o h' q own' row_own)

    -- The credential is the gateway's own token alone, or it is a stored credential of the server that the call may
    -- carry and the header of a secret that belongs to it.
    abbrev pub Carries : Holdings → RequestContext → McpServer → ResolvedCredential → Type 0
    Carries h ctx server r =
        (token : String) × (((is_nothing server.credential_type ≡ true)
            × (r.credential_id ≡ none)
            × (r.headers ≡ gateway_headers ctx token))
          ⊎ ((row : Credential) × (secret : SecretMaterial) × (find_credential h.db ctx server
                ≡ some row)
              × (may_carry ctx server row ≡ true)
              × (r.credential_id ≡ some row.id)
              × P row.id secret
              × (r.headers ≡ gateway_headers ctx token ++ as_header secret ∷ [])))

    -- A call carries no secret of another caller or another server. Whatever it is for a secret to belong to a
    -- credential, if what the rows hold and what is cached under their keys belongs to them, and what a provider makes
    -- of a secret and what is read back of a secret that was sealed belong to the credential of that secret, then the
    -- credential that a call resolves is the gateway's token alone, for a server that takes none, or comes with a
    -- secret that belongs to a stored credential of that server, whose owner the call names or is the server itself.
    -- What the rows hold and what is cached then belongs to them as before, whether the resolution succeeds or not.
    pub resolve-Carries :
        (jti : String) (ctx : RequestContext) (server : McpServer) (h : Holdings)
        → Owned h
        → Owned (resolve m now jti ctx server h).1
          × Holds (Carries h ctx server) (resolve m now jti ctx server h).0
    unfolding resolve
    resolve-Carries jti ctx server h own =
        Kept-continue (Carries h ctx server)
          (exchange_for_downstream m now jti ctx server.name server.audience ctx.tool) _ h own
          (λ token e. elim (Bool-cases (is_nothing server.credential_type)) [
            | inl f ↦ rw f (own, (token, inl (f, refl, refl)))
            | inr f ↦ elim (Option-cases (find_credential h.db ctx server)) [
              | inl missing ↦ rw (f, missing) (own, tt)
              | inr (row, found) ↦
                  let row_own = OwnRow-find_credential h.db ctx server {c = row} own.rows found in
                  rw (f, found)
                    (Kept-after (P row.id) (Carries h ctx server) (materialise m now server row h) _
                      (Kept-materialise server row h own row_own)
                      (λ secret h' mine own'. (
                        own',
                        (
                          token,
                          inr (
                            row,
                            secret,
                            found,
                            find_credential-may_carry h.db ctx server found,
                            refl,
                            mine,
                            refl,
                          ),
                        ),
                      )))
            ]
          ])
