-- ===== src/Registry/Search/Ranked.antt =====
-- agentid/registry/tools.py: what a search finds, and the order of its results.
use agentid_mcp_gateway.Prelude.{
  ℕ, ◌*◌, ◌<◌, ◌≤◌, String, Bool, true, false, not, ◌&&◌, ◌||◌, Option, none, some, List, [], ◌∷◌,
  ◌==◌, ◌≡◌, ◌⊎◌, inl, inr, refl, arith, length, select, map, take, contains, is_empty, strip, ltb,
  Bool-cases, sort_by, if◌then◌else◌, take_all, length-sort_by, length-select, sort_by-perm,
  sort_by-is_ordered, is_ordered-take, text_leb, text_leb-total, Chained, Chained-is_ordered,
}
use mathlib.Core.List.{Perm}
use agentid_mcp_gateway.Models.{Db, McpServer, Tool, permission}
use agentid_mcp_gateway.Registry.Tools.{server_of}
use agentid_mcp_gateway.Registry.Search.{
  Score, ToolMatch, in_names, on_servers, relevant, before, matching, nonempty, score_tool,
  search_tools,
}

-- the one match has the better score, or the same score and a name that is no later
abbrev pub Ahead : ToolMatch → ToolMatch → Type 0
Ahead a b =
    (b.score.num * a.score.den < a.score.num * b.score.den)
    ⊎ ((b.score.num * a.score.den ≡ a.score.num * b.score.den)
        × (text_leb a.tool.qualified_name b.tool.qualified_name ≡ true))

Ahead-before : (a b : ToolMatch) → before a b ≡ true → Ahead a b
Ahead-before a b h =
    elim (Bool-cases (ltb (b.score.num * a.score.den) (a.score.num * b.score.den))) [
      | inl e ↦ inl (ground arith)
      | inr e ↦ inr (ground arith, ground arith)
    ]

-- two matches are comparable
before-total : (a b : ToolMatch) → before a b ≡ false → before b a ≡ true
before-total a b h = ground (arith, text_leb-total a.tool.qualified_name b.tool.qualified_name)

-- the tool is on an enabled server, one of those that are named where any is
abbrev pub is_served : List String → Option McpServer → Bool
is_served servers none = false
is_served servers (some s) = s.enabled && (is_empty servers || contains s.name servers)

-- the caller is limited to tools of these names, if it is limited
abbrev pub is_permitted : Option (List String) → Tool → Bool
is_permitted none t = true
is_permitted (some names) t = contains t.qualified_name names

-- the query is blank, or the score of the tool is at least the least that is asked for
abbrev pub scores : String → Score → Tool → Bool
scores query min_score t =
    strip query == ""
    || not
        (ltb ((score_tool t query).num * min_score.den) (min_score.num * (score_tool t query).den))

-- the tools that a search is for
abbrev pub sought : Db → String → Option (List String) → List String → Score → Tool → Bool
sought db query permitted servers min_score t =
    t.enabled
    && (is_served servers (server_of db t)
        && (is_permitted permitted t && scores query min_score t))

-- a tool with what a search says of it
abbrev pub scored : String → Tool → ToolMatch
scored query t = record { tool = t; score = score_tool t query; permission = permission t }

on_servers-is_served :
    (servers : List String) (o : Option McpServer)
    → on_servers o (nonempty servers) ≡ is_served servers o
on_servers-is_served servers none = refl
on_servers-is_served [] (some s) = refl
on_servers-is_served (n ∷ ns) (some s) = refl

in_names-is_permitted :
    (permitted : Option (List String)) (t : Tool)
    → in_names permitted t.qualified_name ≡ is_permitted permitted t
in_names-is_permitted none t = refl
in_names-is_permitted (some names) t = refl

matching-sought :
    (db : Db) (query : String) (permitted : Option (List String)) (servers : List String)
    (min_score : Score) (ts : List Tool)
    → matching db query permitted (nonempty servers) min_score (select (λ (t : Tool). t.enabled) ts)
      ≡ map (scored query) (select (sought db query permitted servers min_score) ts)
unfolding matching
matching-sought db query permitted servers min_score [] = refl
matching-sought db query permitted servers min_score (t ∷ ts) =
    by_test (matching-sought db query permitted servers min_score ts) t.enabled _ same
  where
    same :
        (on_servers (server_of db t) (nonempty servers)
          && (in_names permitted t.qualified_name && relevant query min_score t))
        ≡ (is_served servers (server_of db t)
            && (is_permitted permitted t && scores query min_score t))
    same =
        rw (on_servers-is_served servers (server_of db t), in_names-is_permitted permitted t) refl

    by_test :
        matching db query permitted
            (nonempty servers)
            min_score
            (select (λ (t : Tool). t.enabled) ts)
          ≡ map (scored query) (select (sought db query permitted servers min_score) ts)
        → (b q : Bool)
        → (on_servers (server_of db t) (nonempty servers)
            && (in_names permitted t.qualified_name && relevant query min_score t))
          ≡ q
        → matching db query permitted (nonempty servers) min_score (
            if b
            then t ∷ select (λ (t : Tool). t.enabled) ts
            else select (λ (t : Tool). t.enabled) ts)
          ≡ map (scored query) (
              if b && q
              then t ∷ select (sought db query permitted servers min_score) ts
              else select (sought db query permitted servers min_score) ts)
    by_test rest false q e = rest
    by_test rest true true e = rw (e, rest) refl
    by_test rest true false e = rw (e, rest) refl

length-map : {A B : Type 0} (f : A → B) (xs : List A) → length (map f xs) ≡ length xs
length-map f [] = refl
length-map f (x ∷ xs) = ground (arith, length-map f xs)

-- A search lists tools best score first, and those of one score by name. It finds exactly the enabled tools of
-- enabled servers that the filters on servers and names leave and whose score is high enough, unless the query is
-- blank, each once; a limit keeps the first of them.
pub search_tools-ranked :
    (db : Db) (query : String) (permitted : Option (List String)) (servers : List String)
    (limit : ℕ) (min_score : Score)
    → Chained Ahead (search_tools db query permitted servers limit min_score)
      × (search_tools db query permitted servers limit min_score
          ≡ take limit (search_tools db query permitted servers (length db.tools) min_score))
      × Perm
          (search_tools db query permitted servers (length db.tools) min_score)
          (map (scored query) (select (sought db query permitted servers min_score) db.tools))
unfolding search_tools
search_tools-ranked db query permitted servers limit min_score =
    let ms = map (scored query) (select (sought db query permitted servers min_score) db.tools) in
    let few : length ms ≤ length db.tools = omega (
      arith,
      length-map (scored query) (select (sought db query permitted servers min_score) db.tools),
      length-select (sought db query permitted servers min_score) db.tools,
    ) in
    let whole : take (length db.tools) (sort_by before ms) ≡ sort_by before ms =
      take_all (length db.tools) (sort_by before ms) (omega (arith, length-sort_by before ms)) in
    rw (matching-sought db query permitted servers min_score db.tools) (
      Chained-is_ordered before Ahead Ahead-before (take limit (sort_by before ms)) (
          is_ordered-take before limit (sort_by before ms)
            (sort_by-is_ordered before before-total ms)),
      rw whole refl,
      rw whole (sort_by-perm before ms),
    )
