-- ===== src/Authorization/Policies.antt =====
-- agentid/authorization/policies.py: policy documents and the bundle that applies them. The reading of
-- a bundle from a value is in Reading; that of a value from a file is left out.
pub mod Reading
use agentid_mcp_gateway.Prelude.{ℕ, suc, String, true, Option, List, [], ◌∷◌, truthy, if◌then◌else◌}
use agentid_mcp_gateway.Errors.{Result, ok, ◌>>=◌}
use agentid_mcp_gateway.Json.{Fields, Items, nil, cons, str, arr, obj, end, field, texts}
use agentid_mcp_gateway.Context.{text_of}
use agentid_mcp_gateway.Models.{Db, Role}
use agentid_mcp_gateway.Authorization.Rbac.{upsert_role}

pub record PolicyDocument : Type 0 where
  pub role : String
  pub allow : List String
  pub deny : List String
  pub description : Option String

-- `PolicyDocument.to_dict`
unfoldable pub document_dict : PolicyDocument → Fields
document_dict p = field "role" (str p.role) (
    field "allow" (arr (texts p.allow)) (
      field "deny" (arr (texts p.deny)) (
        if truthy p.description
        then field "description" (str (text_of p.description)) end
        else end)))

unfoldable pub document_dicts : List PolicyDocument → Items
unfolding document_dict
document_dicts [] = nil
document_dicts (p ∷ ps) = cons (obj (document_dict p)) (document_dicts ps)

-- `PolicyBundle.to_dict`
unfoldable pub bundle_dict : List PolicyDocument → Fields
unfolding document_dicts
bundle_dict ps = field "roles" (arr (document_dicts ps)) end

-- `PolicyBundle.apply`: `fresh` gives the id of the role of each document, if one is made
unfoldable pub apply : (ℕ → String) → ℕ → List PolicyDocument → Db → Result (List Role × Db)
apply fresh n [] db = ok ([], db)
apply fresh n (p ∷ ps) db = do
  r ← upsert_role (fresh n) p.role p.allow p.deny p.description true db
  rest ← apply fresh (suc n) ps r.1
  ok (r.0 ∷ rest.0, rest.1)
