-- ===== src/Registry/Search.antt =====
-- agentid/registry/tools.py: the search in the catalog. A score is a fraction; letters and digits are
-- those of ASCII.
pub mod Ranked
use Prim.Native.Char.{code}
use Prim.Native.String.{[] as nothing, ◌∷◌ as put_char}
use agentid_mcp_gateway.Prelude.{
  ℕ, zero, suc, ◌+◌, ◌*◌, String, Bool, true, false, not, ◌&&◌, ◌||◌, Option, none, some, List, [],
  ◌∷◌, ◌++◌, ◌==◌, leb, ltb, is_empty, length, select, contains, distinct, set_inter, has_prefix,
  words, join, lower, lower_char, strip, if◌then◌else◌, has_part, take, sort_by, text_leb,
}
use agentid_mcp_gateway.Context.{part}
use agentid_mcp_gateway.Models.{Db, McpServer, Tool, permission}
use agentid_mcp_gateway.Registry.Tools.{server_of}

pub record Score : Type 0 where
  pub num : ℕ
  pub den : ℕ

abbrev pub score_lt : Score → Score → Bool
score_lt a b = ltb (a.num * b.den) (b.num * a.den)

-- `max(a, b)`
abbrev max_score : Score → Score → Score
max_score a b = if score_lt a b then b else a

abbrev is_alnum : ℕ → Bool
is_alnum c = leb b'0' c && leb c b'9' || leb b'a' c && leb c b'z' || leb b'A' c && leb c b'Z'

unfoldable pub cleaned : String → String
cleaned nothing = nothing
cleaned (put_char c s) = put_char (if is_alnum (code c) then lower_char c else " ") (cleaned s)

-- `_tokens`
unfoldable pub tokens : String → List String
tokens text = words (cleaned text)

abbrev tenths : ℕ → Score
tenths n = record { num = n; den = 10 }

-- the score of the text of the query within the names of the tool
abbrev name_score : String → String → String → Score
name_score q qualified name =
    max_score (if has_prefix q qualified || has_prefix q name then tenths 9 else tenths 0)
      (if has_part q qualified then tenths 8 else tenths 0)

-- 0.4 + 0.5 * (overlap / of)
abbrev overlap_score : ℕ → ℕ → Score
overlap_score overlap of = record { num = 4 * of + 5 * overlap; den = 10 * of }

abbrev haystack : Tool → String
haystack tool =
    join " "
      (part (some tool.qualified_name) ++ part tool.description ++ part (some (join " " tool.tags)))

abbrev with_overlap : Score → List String → List String → Score
with_overlap score wanted found =
    let overlap = set_inter wanted found in
    if is_empty overlap
    then score
    else max_score score (overlap_score (length overlap) (length wanted))

-- `score_tool`
unfoldable pub score_tool : Tool → String → Score
score_tool tool query =
    let q = lower (strip query) in
    let qualified = lower tool.qualified_name in
    let name = lower tool.name in
    let wanted = distinct (tokens q) in
    if strip query == ""
    then tenths 5
    else if q == qualified || q == name
    then tenths 10
    else if is_empty wanted
    then name_score q qualified name
    else with_overlap (name_score q qualified name) wanted (distinct (tokens (haystack tool)))

pub record ToolMatch : Type 0 where
  pub tool : Tool
  pub score : Score
  pub permission : String

abbrev match_of : String → Tool → ToolMatch
match_of query tool = record {
  tool = tool;
  score = score_tool tool query;
  permission = permission tool;
}

-- the filters on the names: none filters nothing
abbrev pub in_names : Option (List String) → String → Bool
in_names none name = true
in_names (some names) name = contains name names

abbrev pub on_servers : Option McpServer → Option (List String) → Bool
on_servers none servers = false
on_servers (some s) servers = s.enabled && in_names servers s.name

-- `query.strip() and score < min_score` skips a tool
abbrev pub relevant : String → Score → Tool → Bool
relevant query min_score tool =
    strip query == "" || not (score_lt (score_tool tool query) min_score)

unfoldable pub matching :
    Db → String → Option (List String) → Option (List String) → Score → List Tool → List ToolMatch
matching db query permitted servers min_score [] = []
matching db query permitted servers min_score (t ∷ ts) =
    let rest = matching db query permitted servers min_score ts in
    if on_servers (server_of db t) servers
      && (in_names permitted t.qualified_name && relevant query min_score t)
    then match_of query t ∷ rest
    else rest

-- `(-m.score, m.tool.qualified_name)` of the one is at most that of the other
abbrev pub before : ToolMatch → ToolMatch → Bool
before a b =
    if score_lt b.score a.score
    then true
    else if score_lt a.score b.score
    then false
    else text_leb a.tool.qualified_name b.tool.qualified_name

abbrev pub nonempty : List String → Option (List String)
nonempty [] = none
nonempty (s ∷ ss) = some (s ∷ ss)

unfoldable pub search_tools :
    Db → String → Option (List String) → List String → ℕ → Score → List ToolMatch
search_tools db query permitted servers limit min_score = take limit (
    sort_by before (
      matching db query permitted (nonempty servers) min_score
        (select (λ (t : Tool). t.enabled) db.tools)))

abbrev pub default_min_score : Score
default_min_score = record { num = 35; den = 100 }
