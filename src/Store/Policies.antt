-- ===== src/Store/Policies.antt =====
-- internal/store/postgres/postgres.go: `workspace_policies`, whose blocked domains are one text.
pub mod Laws
use maild.Base.{
  ℕ, Bool, Option, none, some, List, [], ◌∷◌, String, ◌==◌, str_eq, if◌then◌else◌, find,
}
use maild.Text.{normalize, split, join}
use maild.Domain.{WorkspacePolicy}
use maild.Store.Defs.{Db, PolicyRow}

-- the loop of splitDomains
unfoldable pub nonempty_domains : List String → List String
nonempty_domains [] = []
nonempty_domains (p ∷ ps) =
    let rest = nonempty_domains ps in if str_eq (normalize p) "" then rest else normalize p ∷ rest

-- splitDomains
unfoldable pub split_domains : String → List String
unfolding nonempty_domains
split_domains raw = nonempty_domains (split b',' raw)

abbrev pub is_policy_of : ℕ → PolicyRow → Bool
is_policy_of ws r = r.policy.workspace_id == ws

-- INSERT … ON CONFLICT (workspace_id) DO UPDATE
unfoldable pub put_policy : PolicyRow → List PolicyRow → List PolicyRow
put_policy row [] = row ∷ []
put_policy row (r ∷ rows) =
    if is_policy_of row.policy.workspace_id r then row ∷ rows else r ∷ put_policy row rows

-- UpsertWorkspacePolicy
unfoldable pub upsert_policy : WorkspacePolicy → ℕ → Db → Db
unfolding put_policy
upsert_policy p now db = record db {
  policies =
      put_policy (record { policy = p; blocked = join "," p.blocked_recipient_domains })
        db.policies;
}

abbrev pub of_row : Option PolicyRow → Option WorkspacePolicy
of_row none = none
of_row (some r) = some (record r.policy { blocked_recipient_domains = split_domains r.blocked })

-- GetWorkspacePolicy
unfoldable pub get_policy : ℕ → Db → Option WorkspacePolicy
unfolding split_domains
get_policy ws db = of_row (find (is_policy_of ws) db.policies)
