-- ===== src/Tests/Policy.antt =====
-- agentid/authorization/permissions.py and rbac.py at small sets and roles.
use agentid_mcp_gateway.Prelude.{
  String, true, not, ◌&&◌, none, some, [], ◌∷◌, ◌≡◌, ◌↔◌, ◌⊎◌, refl, split,
}
use agentid_mcp_gateway.Errors.{ok, raise, integrity_error}
use agentid_mcp_gateway.Models.{Db, Role, Effect}
use agentid_mcp_gateway.Authorization.Permissions.{
  PermissionSet, matches, permits, intersect, denied_by, any_matches, sorted, allowed_by,
}
use agentid_mcp_gateway.Authorization.Permissions.Matching.{SegmentsMatch, matches_iff}
use agentid_mcp_gateway.Authorization.Permissions.Sets.{some_match}
use agentid_mcp_gateway.Json.{Value, nil, cons, str, obj, end, field, get_truthy, get, value_truthy}
use agentid_mcp_gateway.Authorization.Policies.{PolicyDocument, bundle_dict}
use agentid_mcp_gateway.Authorization.Policies.Reading.{
  entry_of, from_dict, from_obj, from_obj-bundle_dict, iter,
}
use agentid_mcp_gateway.Authorization.Rbac.{from_roles, upsert_role, get_role}
use agentid_mcp_gateway.Authorization.Rbac.Laws.{upsert_role_repeated}
use agentid_mcp_gateway.Authorization.Rbac.Replacement.{upsert_role_replaces}
use agentid_mcp_gateway.Tests.Data.{db, dev}

abbrev readers : PermissionSet
readers = record { allow = "github.*" ∷ "docs.read" ∷ []; deny = []; sources = "reader" ∷ [] }

abbrev guests : PermissionSet
guests = record { allow = "github.*" ∷ []; deny = "github.delete" ∷ []; sources = "guest" ∷ [] }

abbrev all_of_github : String
all_of_github = "github.*"

matches_iff_example : (matches all_of_github "github.create" ≡ true) ↔ (
    (all_of_github ≡ "*") ⊎ SegmentsMatch (split b'.' all_of_github) (split b'.' "github.create"))
matches_iff_example = matches_iff all_of_github "github.create"

both_permit : permits (intersect readers guests) "github.create" ≡ true
unfolding permits denied_by any_matches sorted intersect matches split allowed_by
both_permit = refl

upsert_role_repeated_example :
    upsert_role "rol_2" "ops" ("a" ∷ "a" ∷ []) [] none true db ≡ raise integrity_error
upsert_role_repeated_example = upsert_role_repeated "rol_2" "ops" ("a" ∷ "a" ∷ []) [] none db refl

-- the role loses its old entries
abbrev reading_dev : Role
reading_dev = record dev {
  entries =
      record { permission = "docs.*"; effect = Effect.allow }
      ∷ record { permission = "docs.drop"; effect = Effect.deny }
      ∷ [];
}

abbrev reading_db : Db
reading_db = record db {
  roles = reading_dev ∷ [];
  permissions =
      record { name = "docs.*"; description = none }
      ∷ record { name = "docs.drop"; description = none }
      ∷ [];
}

dev_replaced :
    upsert_role "rol_2" "dev" ("docs.*" ∷ []) ("docs.drop" ∷ []) none true db
    ≡ ok (reading_dev, reading_db)
unfolding upsert_role
dev_replaced = refl

upsert_role_replaces_example :
    (get_role reading_db "dev" ≡ some reading_dev)
    × ((q : String)
        → permits (from_roles (reading_dev ∷ [])) q
          ≡ (not (some_match ("docs.drop" ∷ []) q) && some_match ("docs.*" ∷ []) q))
upsert_role_replaces_example =
    upsert_role_replaces "rol_2" "dev" ("docs.*" ∷ []) ("docs.drop" ∷ []) none db reading_db
      reading_dev dev_replaced

abbrev repr : Value → String
repr v = "value"

abbrev developer : PolicyDocument
developer = record {
  role = "developer";
  allow = "github.read" ∷ [];
  deny = "database.drop" ∷ "production.deploy" ∷ [];
  description = some "Day-to-day access";
}

abbrev guest : PolicyDocument
guest = record { role = "guest"; allow = []; deny = []; description = none }

from_obj-bundle_dict_example :
    from_obj repr (obj (bundle_dict (developer ∷ guest ∷ [])))
    ≡ ok (entry_of developer ∷ entry_of guest ∷ [])
from_obj-bundle_dict_example = from_obj-bundle_dict repr (developer ∷ guest ∷ []) refl

-- a text where a list is meant becomes the list of its characters
text_is_split :
    from_dict repr (obj (field "role" (str "dev") (field "allow" (str "a.b") end)))
    ≡ ok (record {
      role = "dev";
      allow = cons (str "a") (cons (str ".") (cons (str "b") nil));
      deny = nil;
      description = none;
    })
unfolding from_dict get_truthy get value_truthy iter
text_is_split = refl
