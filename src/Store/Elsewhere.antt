-- ===== src/Store/Elsewhere.antt =====
-- The rows of the other workspaces, as one workspace's statements leave them.
use maild.Base.{
  ℕ, ◌≡◌, refl, Bool, true, false, not, List, [], ◌∷◌, ◌++◌, arith, ◌==◌, if◌then◌else◌, keep,
  update_if, Bool-cases, inl, inr,
}
use maild.Domain.{Message, MeteringEvent}
use maild.Store.Defs.{Db, Recipient, Account, PolicyRow, VerifiedDomain}

-- of another workspace
abbrev pub elsewhere : ℕ → ℕ → Bool
elsewhere ws owner = not (owner == ws)

-- the rows of the other workspaces are the same in two databases
pub record SameElsewhere (ws : ℕ) (d e : Db) : Type 0 where
  pub messages :
      keep (λ (m : Message). elsewhere ws m.workspace_id) d.messages
      ≡ keep (λ (m : Message). elsewhere ws m.workspace_id) e.messages
  pub suppressions :
      keep (λ (r : Recipient). elsewhere ws r.workspace_id) d.suppressions
      ≡ keep (λ (r : Recipient). elsewhere ws r.workspace_id) e.suppressions
  pub unsubscribes :
      keep (λ (r : Recipient). elsewhere ws r.workspace_id) d.unsubscribes
      ≡ keep (λ (r : Recipient). elsewhere ws r.workspace_id) e.unsubscribes
  pub accounts :
      keep (λ (a : Account). elsewhere ws a.workspace_id) d.accounts
      ≡ keep (λ (a : Account). elsewhere ws a.workspace_id) e.accounts
  pub policies :
      keep (λ (r : PolicyRow). elsewhere ws r.policy.workspace_id) d.policies
      ≡ keep (λ (r : PolicyRow). elsewhere ws r.policy.workspace_id) e.policies
  pub metering :
      keep (λ (m : MeteringEvent). elsewhere ws m.workspace_id) d.metering
      ≡ keep (λ (m : MeteringEvent). elsewhere ws m.workspace_id) e.metering
  pub domains :
      keep (λ (v : VerifiedDomain). elsewhere ws v.workspace_id) d.domains
      ≡ keep (λ (v : VerifiedDomain). elsewhere ws v.workspace_id) e.domains
  pub attempts : d.attempts ≡ e.attempts
  pub webhooks : d.webhooks ≡ e.webhooks

pub SameElsewhere-refl : (ws : ℕ) (d : Db) → SameElsewhere ws d d
SameElsewhere-refl ws d = record {
  messages = refl;
  suppressions = refl;
  unsubscribes = refl;
  accounts = refl;
  policies = refl;
  metering = refl;
  domains = refl;
  attempts = refl;
  webhooks = refl;
}

module _ {A : Type 0} (p : A → Bool) where
  pub keep-append : (xs : List A) (x : A) → p x ≡ false → keep p (xs ++ x ∷ []) ≡ keep p xs
  unfolding keep
  keep-append [] x h = rw h refl
  keep-append (y ∷ ys) x h = ground (arith, keep-append ys x h)

  pub keep-update_if :
      (q : A → Bool) (f : A → A) (xs : List A)
      → ((x : A) → q x ≡ true → p x ≡ false)
      → ((x : A) → p (f x) ≡ p x)
      → keep p (update_if q f xs) ≡ keep p xs
  unfolding keep update_if
  keep-update_if q f [] h k = refl
  keep-update_if q f (x ∷ xs) h k = elim (Bool-cases (q x)) [
    | inl e ↦ rw (e, k x, h x e) (keep-update_if q f xs h k)
    | inr e ↦ rw e (λ i. let rest = keep-update_if q f xs h k i in if p x then x ∷ rest else rest)
  ]
