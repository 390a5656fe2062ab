-- ===== src/Tests/Discovery.antt =====
-- agentid/gateway/mcp/discovery.py at a search of the helper for an issue tool.
use agentid_mcp_gateway.Prelude.{
  Chained, map, ◌≤◌, true, [], ◌∷◌, ◌≡◌, refl, all, length, select, has_part, none, take, words,
  strip, lower, join, strip_prefix,
}
use agentid_mcp_gateway.Models.{Tool}
use agentid_mcp_gateway.Gateway.Discovery.{discover}
use agentid_mcp_gateway.Gateway.Discovery.Filtered.{callable_name, discover_sound}
use agentid_mcp_gateway.Registry.Search.{
  ToolMatch, tokens, score_tool, cleaned, search_tools, default_min_score,
}
use agentid_mcp_gateway.Registry.Search.Ranked.{Ahead, scored, sought, search_tools-ranked}
use mathlib.Core.List.{Perm}
use agentid_mcp_gateway.Tests.Data.{db, helper_ctx, create_issue}

query_tokens : tokens "Create-Issue 2!" ≡ ("create" ∷ "issue" ∷ "2" ∷ [])
unfolding tokens words cleaned
query_tokens = refl

-- one of two words is found: 0.4 + 0.5 * (1 / 2)
half_found : score_tool create_issue "open issue" ≡ record { num = 13; den = 20 }
unfolding score_tool strip lower tokens words cleaned join strip_prefix has_part
half_found = refl

discover_sound_example :
    (all
        (λ (m : ToolMatch).
          callable_name db helper_ctx
            (select (λ (t : Tool). t.enabled) db.tools)
            m.tool.qualified_name)
        (discover db helper_ctx "issue" [] 5).matches
      ≡ true)
    × (length (discover db helper_ctx "issue" [] 5).matches ≤ 5)
discover_sound_example = discover_sound db helper_ctx "issue" [] 5

search_tools-ranked_example :
    Chained Ahead (search_tools db "issue" none [] 1 default_min_score)
    × (search_tools db "issue" none [] 1 default_min_score
        ≡ take 1 (search_tools db "issue" none [] (length db.tools) default_min_score))
    × Perm
        (search_tools db "issue" none [] (length db.tools) default_min_score)
        (map (scored "issue") (select (sought db "issue" none [] default_min_score) db.tools))
search_tools-ranked_example = search_tools-ranked db "issue" none [] 1 default_min_score
