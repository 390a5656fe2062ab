-- ===== src/Credentials/Cache.antt =====
-- agentid/credentials/token_cache.py: the cache of resolved secrets. Its entries are a list with the
-- latest write in front; a key is the id of a stored credential and the time of its last change.
use agentid_mcp_gateway.Prelude.{
  ℕ, ◌+◌, ◌<◌, String, Bool, not, ◌&&◌, Option, none, some, List, [], ◌∷◌, ◌==◌, ◌≡◌, arith, eqb,
  eq_iff, leb, select, if◌then◌else◌, Option-cases, inl, inr,
}
use agentid_mcp_gateway.Identity.Sessions.{seconds}

pub record Entry {ℓ} (T : Type ℓ) : Type ℓ where
  pub value : T
  pub expires_at : ℕ

abbrev pub Key : Type 0
Key = String × ℕ

pub record TokenCache {ℓ} (T : Type ℓ) : Type ℓ where
  pub default_ttl_seconds : ℕ
  pub leeway_seconds : ℕ
  pub entries : List (Key × Entry T)

abbrev pub same_key : Key → Key → Bool
same_key (a, m) (b, n) = a == b && eqb m n

module _ {ℓ} {T : Type ℓ} where
  abbrev pub lookup : Key → List (Key × Entry T) → Option (Entry T)
  lookup key [] = none
  lookup key ((k, e) ∷ es) = if same_key k key then some e else lookup key es

  abbrev pub remove : Key → List (Key × Entry T) → List (Key × Entry T)
  remove key = select (λ (x : Key × Entry T). not (same_key x.0 key))

  abbrev fresh_entry : ℕ → Key → TokenCache T → Option (Entry T) → Option T × TokenCache T
  fresh_entry now key c none = (none, c)
  fresh_entry now key c (some e) =
      if leb e.expires_at (now + seconds c.leeway_seconds)
      then (none, record c { entries = remove key c.entries })
      else (some e.value, c)

  -- `get`: an entry that is about to expire is dropped
  unfoldable pub cache_get : ℕ → Key → TokenCache T → Option T × TokenCache T
  cache_get now key c = fresh_entry now key c (lookup key c.entries)

  abbrev pub expiry : ℕ → TokenCache T → Option ℕ → ℕ
  expiry now c none = now + seconds c.default_ttl_seconds
  expiry now c (some t) = t

  unfoldable pub cache_set : ℕ → Key → T → Option ℕ → TokenCache T → TokenCache T
  cache_set now key value expires_at c = record c {
    entries = (key, record { value = value; expires_at = expiry now c expires_at }) ∷ c.entries;
  }

  unfoldable pub invalidate : Key → TokenCache T → TokenCache T
  invalidate key c = record c { entries = remove key c.entries }

  pub clear : TokenCache T → TokenCache T
  clear c = record c { entries = [] }

module _ {ℓ} {T : Type ℓ} (now : ℕ) (key : Key) (c : TokenCache T) where
  -- A value that was just cached is found until it has only the leeway left, and no longer.
  pub cache_get-cache_set :
      (written : ℕ) (value : T) (expires_at : Option ℕ)
      → (cache_get now key (cache_set written key value expires_at c)).0 ≡ (
          if leb (expiry written c expires_at) (now + seconds c.leeway_seconds)
          then none
          else some value)
  unfolding cache_get cache_set
  cache_get-cache_set written value expires_at = ground (arith, eq_iff key.0 key.0)

  -- What the cache hands out is an entry of it that lives beyond the leeway.
  pub cache_get_sound :
      {v : T}
      → (cache_get now key c).0 ≡ some v
      → (e : Entry T) × (lookup key c.entries ≡ some e)
        × (v ≡ e.value)
        × (now + seconds c.leeway_seconds < e.expires_at)
  unfolding cache_get
  cache_get_sound h = elim (Option-cases (lookup key c.entries)) [
    | inl e ↦ absurd (ground arith)
    | inr (x, e) ↦ (x, e, ground arith, ground arith)
  ]
