-- ===== src/Store/Policies/Laws.antt =====
-- A workspace's policy is what was last stored for it.
use maild.Base.{
  ℕ, ◌≡◌, ◌∙◌, refl, ap, Bool, true, false, some, List, [], ◌∷◌, arith, ◌==◌, if◌then◌else◌, find,
}
use maild.Text.{join}
use maild.Domain.{WorkspacePolicy}
use maild.Store.Defs.{Db, PolicyRow}
use maild.Store.Policies.{
  split_domains, is_policy_of, put_policy, upsert_policy, of_row, get_policy,
}

find-if :
    (p : PolicyRow → Bool) (b : Bool) (xs ys : List PolicyRow)
    → find p (if b then xs else ys) ≡ (if b then find p xs else find p ys)
find-if p true xs ys = refl
find-if p false xs ys = refl

-- one row: `same` is whether it is replaced, `found` and `new` whether the two rows are looked for
one_row :
    {A : Type 0} (same found new : Bool) (row r rest : A)
    → (same ≡ true → found ≡ new)
    → (same ≡ false → new ≡ true → found ≡ false)
    → (if same then if new then row else rest else if found then r else if new then row else rest)
      ≡ (if new then row else if found then r else rest)
one_row true found true row r rest h k = refl
one_row true found false row r rest h k = rw (h refl) refl
one_row false found true row r rest h k = rw (k refl refl) refl
one_row false found false row r rest h k = refl

find-put_policy :
    (ws : ℕ) (row : PolicyRow) (rows : List PolicyRow)
    → find (is_policy_of ws) (put_policy row rows)
      ≡ (if is_policy_of ws row then some row else find (is_policy_of ws) rows)
unfolding find put_policy
find-put_policy ws row [] = refl
find-put_policy ws row (r ∷ rows) =
    find-if (is_policy_of ws) (is_policy_of row.policy.workspace_id r) (row ∷ rows)
      (r ∷ put_policy row rows)
    ∙ rw (find-put_policy ws row rows) (
        one_row (is_policy_of row.policy.workspace_id r) (is_policy_of ws r) (is_policy_of ws row)
          (some row) (some r) _ (λ h. ground (arith, h)) (λ h k. ground (arith, h, k)))

-- GetWorkspacePolicy answers with what UpsertWorkspacePolicy last stored for the workspace, its
-- blocked domains joined by commas and split again; every other workspace's policy stays.
pub get_policy-upsert_policy :
    (ws : ℕ) (p : WorkspacePolicy) (now : ℕ) (db : Db)
    → get_policy ws (upsert_policy p now db) ≡ (
        if p.workspace_id == ws
        then some (record p {
          blocked_recipient_domains = split_domains (join "," p.blocked_recipient_domains);
        })
        else get_policy ws db)
unfolding get_policy upsert_policy
get_policy-upsert_policy ws p now db =
    ap of_row (find-put_policy ws row db.policies) ∙ on_test (p.workspace_id == ws)
  where
    row : PolicyRow
    row = record { policy = p; blocked = join "," p.blocked_recipient_domains }

    on_test :
        (b : Bool)
        → of_row (if b then some row else find (is_policy_of ws) db.policies)
          ≡ (if b then of_row (some row) else of_row (find (is_policy_of ws) db.policies))
    on_test true = refl
    on_test false = refl
