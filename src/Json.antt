-- ===== src/Json.antt =====
-- JSON values: details of audit events and decisions, stored payloads, arguments of tools. A
-- Python dict with text keys is its fields in the order of insertion.
use agentid_mcp_gateway.Prelude.{
  ℕ, String, Option, none, some, Bool, true, false, not, List, [], ◌∷◌, ◌==◌, eqb, if◌then◌else◌,
}

mutual
  pub data Fields : Type 0 where
    end : Fields
    field : String → Value → Fields → Fields

  pub data Items : Type 0 where
    nil : Items
    cons : Value → Items → Items

  pub data Value : Type 0 where
    null : Value
    bool : Bool → Value
    obj : Fields → Value
    arr : Items → Value
    str : String → Value
    num : ℕ → Value

-- `d.get(k)`
unfoldable pub get : String → Fields → Option Value
get k end = none
get k (field j v fs) = if j == k then some v else get k fs

-- a list of texts
unfoldable pub texts : List String → Items
texts [] = nil
texts (s ∷ ss) = cons (str s) (texts ss)

-- `{**fs, **gs}` for dicts with no common key
pub append : Fields → Fields → Fields
append end gs = gs
append (field k v fs) gs = field k v (append fs gs)

-- one more field where the optional text is there
pub field_if_some : String → Option String → Fields → Fields
field_if_some k none fs = fs
field_if_some k (some s) fs = field k (str s) fs

-- the optional text, or null
pub text_or_null : Option String → Value
text_or_null none = null
text_or_null (some s) = str s

-- the truth of a value in a test
unfoldable pub value_truthy : Value → Bool
value_truthy null = false
value_truthy (bool b) = b
value_truthy (num n) = not (eqb n 0)
value_truthy (str s) = not (s == "")
value_truthy (arr nil) = false
value_truthy (arr (cons v vs)) = true
value_truthy (obj end) = false
value_truthy (obj (field k v fs)) = true

-- `bool(d.get(k))`
unfoldable pub get_truthy : Option Value → Bool
get_truthy none = false
get_truthy (some v) = value_truthy v

-- `d.get(k, default)`, where a missing key and a null differ
unfoldable pub get_or : Value → Option Value → Value
get_or v none = v
get_or v (some w) = w

-- `d[k] = v`
pub put : String → Value → Fields → Fields
put k v end = field k v end
put k v (field j w fs) = if j == k then field j v fs else field j w (put k v fs)

is_null : Value → Bool
is_null null = true
is_null _ = false

-- `d.update({k: v for k, v in fs.items() if v is not None})`
pub update_given : Fields → Fields → Fields
unfolding is_null
update_given d end = d
update_given d (field k v fs) = update_given (if is_null v then d else put k v d) fs

-- the keys, in the order of insertion
pub keys : Fields → List String
keys end = []
keys (field k v fs) = k ∷ keys fs
