-- ===== src/Gateway/Proxy/Malformed.antt =====
-- agentid/gateway/mcp/proxy.py and services/mcp_service.py: reading a response raises none of the
-- program's own exceptions; only one of the language, where the response has an unusual shape.
use agentid_mcp_gateway.Prelude.{String, Bool, true, false, Option, none, some, ◌≡◌, refl, arith}
use agentid_mcp_gateway.Errors.{Result, ok, raise, error, integrity_error, python_error}
use agentid_mcp_gateway.Json.{Value, null, bool, num, str, arr, obj, nil, cons, get}
use agentid_mcp_gateway.Gateway.Proxy.{
  ProxyResponse, flagged, is_error, content_text, content_message, result_message, error_message,
  error_or, downstream_error_message, some_text,
}

-- one of the program's own exceptions
abbrev pub own : {A : Type 0} → Result A → Bool
own (ok a) = false
own (raise (error kind code)) = true
own (raise integrity_error) = true
own (raise (python_error name)) = false

own-flagged : (o : Option Value) → own (flagged o) ≡ false
own-flagged none = refl
own-flagged (some null) = ground arith
own-flagged (some (bool b)) = ground arith
own-flagged (some (num n)) = ground arith
own-flagged (some (str s)) = ground arith
own-flagged (some (arr xs)) = ground arith
own-flagged (some (obj fs)) = ground arith

pub own-is_error : (r : ProxyResponse) → own (is_error r) ≡ false
unfolding is_error
own-is_error r = ground (arith, own-flagged r.result)

module _ (to_text : Value → String) where
  own-content_text : (v : Value) → own (content_text to_text v) ≡ false
  own-content_text null = refl
  own-content_text (bool b) = refl
  own-content_text (num n) = refl
  own-content_text (str s) = refl
  own-content_text (arr nil) = refl
  own-content_text (arr (cons null vs)) = refl
  own-content_text (arr (cons (bool b) vs)) = refl
  own-content_text (arr (cons (num n) vs)) = refl
  own-content_text (arr (cons (str s) vs)) = refl
  own-content_text (arr (cons (arr xs) vs)) = refl
  own-content_text (arr (cons (obj fs) vs)) = refl
  own-content_text (obj fs) = refl

  own-some_text : (r : Result String) → own r ≡ false → own (some_text r) ≡ false
  own-some_text (ok s) h = refl
  own-some_text (raise e) h = h

  own-content_message : (o : Option Value) → own (content_message to_text o) ≡ false
  own-content_message none = refl
  own-content_message (some v) = ground (arith, own-content_text v)

  own-result_message : (o : Option Value) → own (result_message to_text o) ≡ false
  own-result_message none = refl
  own-result_message (some null) = ground arith
  own-result_message (some (bool b)) = ground arith
  own-result_message (some (num n)) = ground arith
  own-result_message (some (str s)) = ground arith
  own-result_message (some (arr xs)) = ground arith
  own-result_message (some (obj fs)) = ground (
    arith,
    own-some_text (content_message to_text (get "content" fs))
        (own-content_message (get "content" fs)),
  )

  own-error_message : (v : Value) → own (error_message to_text v) ≡ false
  own-error_message null = refl
  own-error_message (bool b) = refl
  own-error_message (num n) = refl
  own-error_message (str s) = refl
  own-error_message (arr xs) = refl
  own-error_message (obj fs) = refl

  pub own-downstream_error_message :
      (r : ProxyResponse) → own (downstream_error_message to_text r) ≡ false
  unfolding downstream_error_message
  own-downstream_error_message r = by_error r.error_body
    where
      by_error :
          (o : Option Value) → own (error_or to_text o (result_message to_text r.result)) ≡ false
      by_error none = own-result_message r.result
      by_error (some v) = ground (arith, own-error_message v, own-result_message r.result)
