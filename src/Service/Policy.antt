-- ===== src/Service/Policy.antt =====
-- internal/service/message_service.go: workspacePolicy and UpsertWorkspacePolicy.
use maild.Base.{ℕ, Option, none, some, ◌==◌, if◌then◌else◌}
use maild.Base.Int.{ℤ, pos, ltb_ℤ}
use maild.Domain.{WorkspacePolicy}
use maild.Store.Defs.{ok}
use maild.Store.Policies.{get_policy, upsert_policy}
use maild.World.{Act, pure, ◌>>=◌, query, exec}
use maild.Service.Defs.{MessageService}
use maild.Service.Helpers.{normalize_domains}

-- `if workspaceID == 0 { workspaceID = 1 }`
abbrev pub default_workspace : ℕ → ℕ
default_workspace ws = if ws == 0 then 1 else ws

-- the policy that is stored, with its domains normalised, or the instance's defaults
unfoldable pub effective_policy : MessageService → ℕ → Option WorkspacePolicy → WorkspacePolicy
effective_policy s ws (some p) = record p {
  blocked_recipient_domains = normalize_domains p.blocked_recipient_domains;
}
effective_policy s ws none = record {
  workspace_id = ws;
  rate_limit_workspace_per_hour = s.default_workspace_rate;
  rate_limit_domain_per_hour = s.default_domain_rate;
  blocked_recipient_domains = normalize_domains s.blocked_recipient_domains;
}

-- workspacePolicy, and WorkspacePolicy, which calls it
unfoldable pub workspace_policy : MessageService → ℕ → Act WorkspacePolicy
unfolding effective_policy
workspace_policy s ws = do
  stored ← query (λ db. ok (get_policy (default_workspace ws) db))
  pure (effective_policy s (default_workspace ws) stored)

abbrev pub rate_or : ℤ → ℤ → ℤ
rate_or fallback n = if ltb_ℤ n (pos 1) then fallback else n

-- what UpsertWorkspacePolicy stores
unfoldable pub completed_policy : MessageService → WorkspacePolicy → WorkspacePolicy
completed_policy s p = record p {
  workspace_id = default_workspace p.workspace_id;
  rate_limit_workspace_per_hour = rate_or s.default_workspace_rate p.rate_limit_workspace_per_hour;
  rate_limit_domain_per_hour = rate_or s.default_domain_rate p.rate_limit_domain_per_hour;
  blocked_recipient_domains = normalize_domains p.blocked_recipient_domains;
}

-- UpsertWorkspacePolicy
unfoldable pub upsert_workspace_policy : MessageService → WorkspacePolicy → Act (Unit {0})
unfolding completed_policy
upsert_workspace_policy s p = exec (λ now db. (ok tt, upsert_policy (completed_policy s p) now db))
