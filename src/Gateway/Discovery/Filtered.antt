-- ===== src/Gateway/Discovery/Filtered.antt =====
-- agentid/gateway/mcp/discovery.py: what a caller learns of the catalog.
use agentid_mcp_gateway.Prelude.{
  ℕ, ◌≤◌, String, Bool, true, ◌&&◌, Option, some, List, [], ◌∷◌, ◌==◌, ◌≡◌, refl, sym, ◌∙◌, arith,
  all, any, contains, contains-set_add, length, take, sort_by, all-take, all-sort_by, length-take,
  select,
}
use agentid_mcp_gateway.Context.{RequestContext}
use agentid_mcp_gateway.Models.{Db, Tool}
use agentid_mcp_gateway.Registry.Search.{
  ToolMatch, Score, matching, search_tools, before, default_min_score, nonempty,
}
use agentid_mcp_gateway.Gateway.Discovery.{
  callable, permitted_among, permitted_tool_names, discover,
}

-- some tool of this name may be called
abbrev pub callable_name : Db → RequestContext → List Tool → String → Bool
callable_name db ctx ts name = any (λ (t : Tool). t.qualified_name == name && callable db ctx t) ts

module _ (db : Db) (ctx : RequestContext) where
  contains-permitted_among :
      (name : String) (ts : List Tool)
      → contains name (permitted_among db ctx ts).0 ≡ callable_name db ctx ts name
  unfolding permitted_among
  contains-permitted_among name [] = refl
  contains-permitted_among name (t ∷ ts) = ground (
    arith,
    contains-permitted_among name ts,
    contains-set_add name t.qualified_name (permitted_among db ctx ts).0,
  )

all-cong :
    (p q : ToolMatch → Bool) (ms : List ToolMatch)
    → ((m : ToolMatch) → p m ≡ q m)
    → all p ms ≡ all q ms
all-cong p q [] same = refl
all-cong p q (m ∷ ms) same = ground (arith, same m, all-cong p q ms same)

-- the name of each match is one of the permitted names
all-matching :
    (db : Db) (query : String) (permitted : List String) (servers : Option (List String))
    (low : Score) (ts : List Tool)
    → all
        (λ (m : ToolMatch). contains m.tool.qualified_name permitted)
        (matching db query (some permitted) servers low ts)
      ≡ true
unfolding matching
all-matching db query permitted servers low [] = refl
all-matching db query permitted servers low (t ∷ ts) =
    ground (arith, all-matching db query permitted servers low ts)

-- A discovery names no tool but those that the engine would let the caller call, whatever is searched
-- for, and never more of them than the limit.
pub discover_sound :
    (db : Db) (ctx : RequestContext) (query : String) (servers : List String) (limit : ℕ)
    → (all
          (λ (m : ToolMatch).
            callable_name db ctx (select (λ (t : Tool). t.enabled) db.tools) m.tool.qualified_name)
          (discover db ctx query servers limit).matches
        ≡ true)
      × (length (discover db ctx query servers limit).matches ≤ limit)
unfolding discover permitted_tool_names search_tools
discover_sound db ctx query servers limit =
    let enabled = select (λ (t : Tool). t.enabled) db.tools in
    let permitted = (permitted_among db ctx enabled).0 in
    let found = matching db query (some permitted) (nonempty servers) default_min_score enabled in
    let is_permitted = λ (m : ToolMatch). contains m.tool.qualified_name permitted in
    (
      sym (
            all-cong is_permitted (λ m. callable_name db ctx enabled m.tool.qualified_name)
              (take limit (sort_by before found))
              (λ m. contains-permitted_among db ctx m.tool.qualified_name enabled))
          ∙ all-take is_permitted limit (sort_by before found) (
              all-sort_by before is_permitted found
              ∙ all-matching db query permitted (nonempty servers) default_min_score enabled),
      length-take limit (sort_by before found),
    )
