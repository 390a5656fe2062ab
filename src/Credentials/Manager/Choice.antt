-- ===== src/Credentials/Manager/Choice.antt =====
-- agentid/credentials/manager.py: which stored credential is found for a call.
use agentid_mcp_gateway.Prelude.{
  String, Bool, true, false, ◌&&◌, ◌||◌, some, List, [], ◌∷◌, ◌==◌, ◌≡◌, arith, any, find_first,
  find_first-passes, truthy, Option-cases, inl, inr,
}
use agentid_mcp_gateway.Context.{RequestContext, text_of}
use agentid_mcp_gateway.Models.{Db, Credential, IdentityType, McpServer}
use agentid_mcp_gateway.Identity.ServiceAccounts.{type_eq}
use agentid_mcp_gateway.Credentials.Manager.{candidates, owned_by, first_owned, find_credential}

-- The owners whose credential a call may carry: those that the context names, and the server itself.
unfoldable pub may_carry : RequestContext → McpServer → Credential → Bool
may_carry ctx server c =
    c.server_id == server.id
    && ((truthy ctx.service_account_id
          && type_eq c.owner_type IdentityType.service_account
          && c.owner_id == text_of ctx.service_account_id)
        || (truthy ctx.user_id
            && type_eq c.owner_type IdentityType.user
            && c.owner_id == text_of ctx.user_id)
        || (truthy ctx.agent_id
            && type_eq c.owner_type IdentityType.agent
            && c.owner_id == text_of ctx.agent_id)
        || (type_eq c.owner_type IdentityType.gateway && c.owner_id == server.id))

-- the first of the owners that has a credential
first_owned-owner :
    (server_id : String) (cs : List Credential) (owners : List (IdentityType × String))
    {c : Credential}
    → first_owned server_id cs owners ≡ some c
    → any (λ (o : IdentityType × String). owned_by server_id o.0 o.1 c) owners ≡ true
unfolding first_owned
first_owned-owner server_id cs [] h = absurd (ground arith)
first_owned-owner server_id cs ((t, i) ∷ owners) {c} h =
    elim (Option-cases (find_first (owned_by server_id t i) cs)) [
      | inl e ↦
          let later : first_owned server_id cs owners ≡ some c = ground arith in
          ground (arith, first_owned-owner server_id cs owners later)
      | inr (d, e) ↦ ground (arith, find_first-passes (owned_by server_id t i) cs e)
    ]

-- The credential that is found is one of the server, and its owner is one that the call names or the server.
pub find_credential-may_carry :
    (db : Db) (ctx : RequestContext) (server : McpServer) {c : Credential}
    → find_credential db ctx server ≡ some c
    → may_carry ctx server c ≡ true
unfolding find_credential may_carry candidates
find_credential-may_carry db ctx server {c} h =
    ground (arith, first_owned-owner server.id db.credentials (candidates ctx server) h)

-- The most specific credential is found: that of the service account that the call runs as, where
-- there is one.
pub find_credential-service_account :
    (db : Db) (ctx : RequestContext) (server : McpServer) (sa : String) (c : Credential)
    → ctx.service_account_id ≡ some sa
    → (sa == "") ≡ false
    → find_first (owned_by server.id IdentityType.service_account sa) db.credentials ≡ some c
    → find_credential db ctx server ≡ some c
unfolding find_credential candidates first_owned
find_credential-service_account db ctx server sa c has given found = ground (arith, has, found)
