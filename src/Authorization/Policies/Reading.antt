-- ===== src/Authorization/Policies/Reading.antt =====
-- agentid/authorization/policies.py: a bundle that is read from the value of a YAML or JSON document.
use agentid_mcp_gateway.Prelude.{
  String, Bool, true, not, Option, none, some, List, [], ◌∷◌, ◌==◌, ◌≡◌, refl, arith, all, is_empty,
  map, truthy, if◌then◌else◌, Bool-cases, inl, inr,
}
use agentid_mcp_gateway.Context.{text_of}
use agentid_mcp_gateway.Errors.{
  Result, ok, raise, error, python_error, ErrorKind, ◌>>=◌, ◌>>◌, raise_if,
}
use agentid_mcp_gateway.Json.{
  Items, Value, nil, cons, null, bool, str, num, arr, obj, get, get_truthy, keys, texts,
  value_truthy,
}
use agentid_mcp_gateway.Authorization.Policies.{
  PolicyDocument, bundle_dict, document_dict, document_dicts,
}

-- A document as it is read: nothing checks that the entries of its lists, or its description, are texts.
pub record PolicyEntry : Type 0 where
  pub role : String
  pub allow : Items
  pub deny : Items
  pub description : Option Value

-- `a or b`, for two results of `get`
infixr 30 ◌or_value◌
abbrev ◌or_value◌ : Option Value → Option Value → Option Value
a or_value b = if get_truthy a then a else b

-- `list(s)`, for a text: its characters
characters : String → Items
characters String.[] = nil
characters (String.◌∷◌ c s) = cons (str (String.◌∷◌ c String.[])) (characters s)

-- what a `for` over a value goes through
unfoldable pub iter : Value → Result Items
unfolding characters
iter (arr is) = ok is
iter (str s) = ok (characters s)
iter (obj fs) = ok (texts (keys fs))
iter null = raise (python_error "TypeError")
iter (bool b) = raise (python_error "TypeError")
iter (num n) = raise (python_error "TypeError")

-- `list(raw.get(key) or [])`. The test that follows it, whether the list is a list, always passes.
abbrev list_of : Option Value → Result Items
list_of none = ok nil
list_of (some v) = if value_truthy v then iter v else ok nil

-- `str(v)`; `repr` gives the text of a value that is no text
abbrev shown : (Value → String) → Value → String
shown repr (str s) = s
shown repr v = repr v

abbrev shown_or_empty : (Value → String) → Option Value → String
shown_or_empty repr none = ""
shown_or_empty repr (some v) = shown repr v

-- a null is as good as a missing key
abbrev not_null : Option Value → Option Value
not_null (some null) = none
not_null v = v

-- `PolicyDocument.from_dict`
unfoldable pub from_dict : (Value → String) → Value → Result PolicyEntry
from_dict repr (obj raw) = do
  let name = get "role" raw or_value get "name" raw
  raise_if (not (get_truthy name)) ErrorKind.validation_error "invalid_policy"
  allow ← list_of (get "allow" raw)
  deny ← list_of (get "deny" raw)
  ok (record {
    role = shown_or_empty repr name;
    allow = allow;
    deny = deny;
    description = not_null (get "description" raw);
  })
from_dict repr v = raise (python_error "AttributeError")

unfoldable pub from_dicts : (Value → String) → Items → Result (List PolicyEntry)
from_dicts repr nil = ok []
from_dicts repr (cons v vs) = do
  entry ← from_dict repr v
  rest ← from_dicts repr vs
  ok (entry ∷ rest)

abbrev roles_under : Option Value → Result Items
roles_under none = raise (error ErrorKind.validation_error "invalid_policy")
roles_under (some null) = raise (error ErrorKind.validation_error "invalid_policy")
roles_under (some v) = iter v

-- `PolicyBundle.from_obj`
unfoldable pub from_obj : (Value → String) → Value → Result (List PolicyEntry)
from_obj repr (obj raw) = do
  entries ← roles_under (get "roles" raw or_value get "policies" raw)
  from_dicts repr entries
from_obj repr (arr entries) = from_dicts repr entries
from_obj repr v = raise (error ErrorKind.validation_error "invalid_policy")

-- the entry that a document is read back as
abbrev pub entry_of : PolicyDocument → PolicyEntry
entry_of p = record {
  role = p.role;
  allow = texts p.allow;
  deny = texts p.deny;
  description = if truthy p.description then some (str (text_of p.description)) else none;
}

abbrev pub named : PolicyDocument → Bool
named p = not (p.role == "")

-- the list of texts that is read back
list_of-texts : (ss : List String) → list_of (some (arr (texts ss))) ≡ ok (texts ss)
unfolding iter value_truthy texts
list_of-texts [] = refl
list_of-texts (s ∷ ss) = refl

from_dict-document_dict :
    (repr : Value → String) (p : PolicyDocument)
    → named p ≡ true
    → from_dict repr (obj (document_dict p)) ≡ ok (entry_of p)
unfolding from_dict document_dict get get_truthy value_truthy
from_dict-document_dict repr p h = elim (Bool-cases (truthy p.description)) [
  | inl e ↦ rw (h, e, list_of-texts p.allow, list_of-texts p.deny, h) refl
  | inr e ↦ rw (h, e, list_of-texts p.allow, list_of-texts p.deny, h) refl
]

from_dicts-document_dicts :
    (repr : Value → String) (ps : List PolicyDocument)
    → all named ps ≡ true
    → from_dicts repr (document_dicts ps) ≡ ok (map entry_of ps)
unfolding from_dicts document_dicts
from_dicts-document_dicts repr [] h = refl
from_dicts-document_dicts repr (p ∷ ps) h =
    let first : named p ≡ true = ground arith in
    let later : all named ps ≡ true = ground arith in
    rw (from_dict-document_dict repr p first, from_dicts-document_dicts repr ps later) refl

-- A bundle that has been rendered is read back, each document with its role, its lists and its description,
-- where every document names its role; but a bundle without documents is refused when it is read.
pub from_obj-bundle_dict :
    (repr : Value → String) (ps : List PolicyDocument)
    → all named ps ≡ true
    → from_obj repr (obj (bundle_dict ps)) ≡ (
        if is_empty ps
        then raise (error ErrorKind.validation_error "invalid_policy")
        else ok (map entry_of ps))
unfolding from_obj bundle_dict document_dicts get get_truthy value_truthy iter
from_obj-bundle_dict repr [] h = refl
from_obj-bundle_dict repr (p ∷ ps) h = from_dicts-document_dicts repr (p ∷ ps) h
