-- ===== src/Credentials/Manager/Trail.antt =====
-- agentid/credentials/manager.py: what the resolution of a credential leaves of the database.
use agentid_mcp_gateway.Prelude.{
  ℕ, String, List, ◌≡◌, refl, ◌∙◌, Bool-cases, Option-cases, inl, inr,
}
use agentid_mcp_gateway.Context.{RequestContext}
use agentid_mcp_gateway.Errors.{Result, ok, raise}
use agentid_mcp_gateway.Errors.Exec.{Exec, continue}
use agentid_mcp_gateway.Models.{Db, Credential, McpServer}
use agentid_mcp_gateway.Credentials.Manager.{
  Manager, Holdings, materialise, resolve, opened, refreshed, find_credential, is_expired,
  exchange_for_downstream, is_nothing, builder, cache_key,
}
use agentid_mcp_gateway.Config.{vault_key}
use agentid_mcp_gateway.Credentials.Secrets.{SecretMaterial, open_vault, refresh}
use agentid_mcp_gateway.Credentials.Cache.{cache_get}

-- What is read of the database, and does not look at the stored credentials.
module _ {X : Type 0} (view : Db → X)
    (ignores : (db : Db) (cs : List Credential)
      → view (record db { credentials = cs }) ≡ view db) where
  abbrev seen : Holdings → X
  seen h = view h.db

  -- a continuation that leaves the view, after any result
  seen-continue :
      {A B : Type 0} (r : Result A) (g : A → Exec Holdings B) (h : Holdings)
      → ((a : A) → seen (g a h).1 ≡ seen h)
      → seen (continue r g h).1 ≡ seen h
  seen-continue (ok a) g h kept = kept a
  seen-continue (raise x) g h kept = refl

  module _ (m : Manager) (now : ℕ) (server : McpServer) (row : Credential) where
    seen-refreshed :
        (old : SecretMaterial) (h : Holdings) → seen (refreshed m now server row old h).1 ≡ seen h
    seen-refreshed old h =
        seen-continue (refresh m.refresh_registry server.name old) _ h (λ secret. ignores h.db _)

    seen-opened : (h : Holdings) → seen (opened m now server row h).1 ≡ seen h
    seen-opened h =
        seen-continue (open_vault m.library (vault_key m.settings) row.ciphertext) _ h (λ payload.
          seen-continue (builder m.library row.credential_type payload) _ h (λ secret.
            elim (Bool-cases (is_expired now secret row)) [
              | inl e ↦ rw e (seen-refreshed secret h)
              | inr e ↦ rw e refl
            ]))

    seen-materialise : (h : Holdings) → seen (materialise m now server row h).1 ≡ seen h
    unfolding materialise
    seen-materialise h = elim (Option-cases (cache_get now (cache_key row) h.cache).0) [
      | inl e ↦ rw e (seen-opened (record h { cache = (cache_get now (cache_key row) h.cache).1 }))
      | inr (secret, e) ↦ rw e refl
    ]

  -- The resolution of a credential leaves what does not look at the stored credentials.
  pub seen-resolve :
      (m : Manager) (now : ℕ) (jti : String) (ctx : RequestContext) (server : McpServer)
      (h : Holdings)
      → view (resolve m now jti ctx server h).1.db ≡ view h.db
  unfolding resolve
  seen-resolve m now jti ctx server h =
      seen-continue (exchange_for_downstream m now jti ctx server.name server.audience ctx.tool) _ h
        (λ token. elim (Bool-cases (is_nothing server.credential_type)) [
          | inl e ↦ rw e refl
          | inr e ↦ rw e (elim (Option-cases (find_credential h.db ctx server)) [
            | inl f ↦ rw f refl
            | inr (row, f) ↦ rw f (
                seen-continue (materialise m now server row h).0 _
                  (materialise m now server row h).1 (λ secret. refl)
                ∙ seen-materialise m now server row h)
          ])
        ])

-- The resolution writes no audit event.
pub events-resolve :
    (m : Manager) (now : ℕ) (jti : String) (ctx : RequestContext) (server : McpServer)
    (h : Holdings)
    → (resolve m now jti ctx server h).1.db.audit_events ≡ h.db.audit_events
events-resolve = seen-resolve (λ db. db.audit_events) (λ db cs. refl)
