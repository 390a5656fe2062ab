-- ===== src/Audit/Redaction.antt =====
-- agentid/audit/events.py, `redact`: the removal of values under keys that name secrets.
use agentid_mcp_gateway.Prelude.{
  ℕ, suc, String, Bool, true, false, ◌&&◌, List, [], ◌∷◌, ◌==◌, ◌≡◌, refl, arith, contains, lower,
  ltb, if◌then◌else◌,
}
use agentid_mcp_gateway.Json.{
  Value, Items, Fields, null, bool, num, str, arr, obj, nil, cons, end, field,
}

abbrev pub redacted_keys : List String
redacted_keys =
    "authorization" ∷ "api_key" ∷ "apikey" ∷ "access_token" ∷ "refresh_token" ∷ "token" ∷ "secret"
    ∷ "password" ∷ "client_secret" ∷ "credential" ∷ "ciphertext" ∷ "x-downstream-api-key"
    ∷ "x-downstream-authorization" ∷ []

abbrev pub redacted : Value
redacted = str "***redacted***"

-- `str(k).lower() in REDACTED_KEYS`
unfoldable pub is_secret : String → Bool
is_secret k = contains (lower k) redacted_keys

-- The depth is that of the source; below six levels everything is removed.
unfoldable mutual
  pub redact : ℕ → Value → Value
  redact depth null = if ltb 6 depth then redacted else null
  redact depth (bool b) = if ltb 6 depth then redacted else bool b
  redact depth (num n) = if ltb 6 depth then redacted else num n
  redact depth (str s) = if ltb 6 depth then redacted else str s
  redact depth (arr xs) =
      let ys = redact_items (suc depth) xs in if ltb 6 depth then redacted else arr ys
  redact depth (obj fs) =
      let gs = redact_fields (suc depth) fs in if ltb 6 depth then redacted else obj gs

  pub redact_items : ℕ → Items → Items
  redact_items depth nil = nil
  redact_items depth (cons v vs) = cons (redact depth v) (redact_items depth vs)

  pub redact_fields : ℕ → Fields → Fields
  redact_fields depth end = end
  redact_fields depth (field k v fs) =
      let w = redact depth v in
      field k (if is_secret k then redacted else w) (redact_fields depth fs)

-- the value that stands for what was removed
abbrev is_redacted : Value → Bool
is_redacted (str s) = s == "***redacted***"
is_redacted _ = false

-- No key that names a secret has another value, at any depth.
unfoldable mutual
  pub clean : Value → Bool
  clean null = true
  clean (bool b) = true
  clean (num n) = true
  clean (str s) = true
  clean (arr xs) = clean_items xs
  clean (obj fs) = clean_fields fs

  pub clean_items : Items → Bool
  clean_items nil = true
  clean_items (cons v vs) = clean v && clean_items vs

  pub clean_fields : Fields → Bool
  clean_fields end = true
  clean_fields (field k v fs) =
      let below = clean v in (if is_secret k then is_redacted v else below) && clean_fields fs

mutual
  unfolding clean clean_items clean_fields redact redact_items redact_fields

  clean-redact : (v : Value) → (depth : ℕ) → clean (redact depth v) ≡ true
  clean-redact null depth = ground arith
  clean-redact (bool b) depth = ground arith
  clean-redact (num n) depth = ground arith
  clean-redact (str s) depth = ground arith
  clean-redact (arr xs) depth = ground (arith, clean-redact_items xs (suc depth))
  clean-redact (obj fs) depth = ground (arith, clean-redact_fields fs (suc depth))

  clean-redact_items : (vs : Items) → (depth : ℕ) → clean_items (redact_items depth vs) ≡ true
  clean-redact_items nil depth = refl
  clean-redact_items (cons v vs) depth =
      ground (arith, clean-redact v depth, clean-redact_items vs depth)

  clean-redact_fields : (fs : Fields) → (depth : ℕ) → clean_fields (redact_fields depth fs) ≡ true
  clean-redact_fields end depth = refl
  clean-redact_fields (field k v fs) depth =
      ground (arith, clean-redact v depth, clean-redact_fields fs depth)

mutual
  unfolding redact redact_items redact_fields

  redact_twice : (v : Value) → (depth : ℕ) → redact depth (redact depth v) ≡ redact depth v
  redact_twice null depth = ground arith
  redact_twice (bool b) depth = ground arith
  redact_twice (num n) depth = ground arith
  redact_twice (str s) depth = ground arith
  redact_twice (arr xs) depth = ground (arith, redact_items_twice xs (suc depth))
  redact_twice (obj fs) depth = ground (arith, redact_fields_twice fs (suc depth))

  redact_items_twice :
      (vs : Items)
      → (depth : ℕ) → redact_items depth (redact_items depth vs) ≡ redact_items depth vs
  redact_items_twice nil depth = refl
  redact_items_twice (cons v vs) depth =
      ground (arith, redact_twice v depth, redact_items_twice vs depth)

  redact_fields_twice :
      (fs : Fields)
      → (depth : ℕ) → redact_fields depth (redact_fields depth fs) ≡ redact_fields depth fs
  redact_fields_twice end depth = refl
  redact_fields_twice (field k v fs) depth =
      ground (arith, redact_twice v depth, redact_fields_twice fs depth)

-- After the removal no key that names a secret has a value left, however deeply it was nested.
pub redact-clean : (depth : ℕ) (v : Value) → clean (redact depth v) ≡ true
redact-clean depth v = clean-redact v depth

-- The removal of secrets from what they were removed from changes nothing, so that it does no harm that an
-- event goes through it twice.
pub redact-redact : (depth : ℕ) (v : Value) → redact depth (redact depth v) ≡ redact depth v
redact-redact depth v = redact_twice v depth
