-- ===== src/Store/Others.antt =====
-- Which rows a statement leaves alone: those of the other workspaces.
use maild.Base.{
  ℕ, ◌≡◌, refl, sym, ap, ◌∙◌, Bool, true, false, not, List, [], ◌∷◌, String, arith, if◌then◌else◌,
  keep, any, Bool-cases, inl, inr,
}
use mathlib.Core.Path.{subst}
use maild.Domain.{MeteringEvent, WorkspacePolicy}
use maild.Text.{trim_space, join}
use maild.Store.Defs.{
  Result, ok, err, account_not_found, Db, Recipient, Account, PolicyRow, VerifiedDomain,
}
use maild.Store.Elsewhere.{elsewhere, SameElsewhere, keep-append, keep-update_if}
use maild.Store.Messages.{Draft, create_message, insert_metering_event}
use maild.Store.Recipients.{
  upsert_domain, upsert_domain_verification, upsert_recipient, add_suppression, add_unsubscribe,
  is_recipient, normalize_email,
}
use maild.Store.Accounts.{of_workspace, is_account, put_account, set_active_account}
use maild.Store.Policies.{put_policy, upsert_policy}

abbrev of_other : ℕ → Recipient → Bool
of_other ws r = elsewhere ws r.workspace_id

own_recipient :
    (ws : ℕ) (email : String) (r : Recipient)
    → is_recipient ws email r ≡ true
    → of_other ws r ≡ false
own_recipient ws email r h = ground (arith, h)

keep-upsert_recipient :
    (ws : ℕ) (email reason : String) (rows : List Recipient)
    → keep (of_other ws) (upsert_recipient ws email reason rows) ≡ keep (of_other ws) rows
unfolding keep upsert_recipient
keep-upsert_recipient ws email reason [] = ground arith
keep-upsert_recipient ws email reason (r ∷ rows) = elim (Bool-cases (is_recipient ws email r)) [
  | inl e ↦ rw (e, own_recipient ws email r e) refl
  | inr e ↦ rw e (λ i.
      let rest = keep-upsert_recipient ws email reason rows i in
      if of_other ws r then r ∷ rest else rest)
]

abbrev policy_elsewhere : ℕ → PolicyRow → Bool
policy_elsewhere ws r = elsewhere ws r.policy.workspace_id

keep-put_policy :
    (row : PolicyRow) (rows : List PolicyRow)
    → keep (policy_elsewhere row.policy.workspace_id) (put_policy row rows)
      ≡ keep (policy_elsewhere row.policy.workspace_id) rows
unfolding keep put_policy
keep-put_policy row [] = ground arith
keep-put_policy row (r ∷ rows) = ground (arith, keep-put_policy row rows)

abbrev domain_elsewhere : ℕ → VerifiedDomain → Bool
domain_elsewhere ws v = elsewhere ws v.workspace_id

keep-upsert_domain :
    (ws : ℕ) (domain : String) (verified : Bool) (rows : List VerifiedDomain)
    → keep (domain_elsewhere ws) (upsert_domain ws domain verified rows)
      ≡ keep (domain_elsewhere ws) rows
unfolding keep upsert_domain
keep-upsert_domain ws domain verified [] = ground arith
keep-upsert_domain ws domain verified (r ∷ rows) =
    ground (arith, keep-upsert_domain ws domain verified rows)

own_false : (ws : ℕ) → elsewhere ws ws ≡ false
own_false ws = ground arith

module _ (ws : ℕ) (d e : Db) (h : SameElsewhere ws d e) where
  pub SameElsewhere-create_message :
      (draft : Draft) (now : ℕ)
      → draft.workspace_id ≡ ws
      → SameElsewhere ws d (create_message draft now e).1
  unfolding create_message
  SameElsewhere-create_message draft now w = record {
    messages = h.messages ∙ sym (keep-append _ e.messages _ (ap (elsewhere ws) w ∙ own_false ws));
    suppressions = h.suppressions;
    unsubscribes = h.unsubscribes;
    accounts = h.accounts;
    policies = h.policies;
    metering = h.metering;
    domains = h.domains;
    attempts = h.attempts;
    webhooks = h.webhooks;
  }

  pub SameElsewhere-insert_metering_event :
      (m : MeteringEvent) (now : ℕ)
      → m.workspace_id ≡ ws
      → SameElsewhere ws d (insert_metering_event m now e)
  unfolding insert_metering_event
  SameElsewhere-insert_metering_event m now w = record {
    metering = h.metering ∙ sym (keep-append _ e.metering _ (ap (elsewhere ws) w ∙ own_false ws));
    messages = h.messages;
    suppressions = h.suppressions;
    unsubscribes = h.unsubscribes;
    accounts = h.accounts;
    policies = h.policies;
    domains = h.domains;
    attempts = h.attempts;
    webhooks = h.webhooks;
  }

  pub SameElsewhere-add_suppression :
      (email reason : String) (now : ℕ) → SameElsewhere ws d (add_suppression ws email reason now e)
  unfolding add_suppression
  SameElsewhere-add_suppression email reason now = record {
    suppressions =
        h.suppressions
        ∙ sym (keep-upsert_recipient ws (normalize_email email) reason e.suppressions);
    messages = h.messages;
    unsubscribes = h.unsubscribes;
    accounts = h.accounts;
    policies = h.policies;
    metering = h.metering;
    domains = h.domains;
    attempts = h.attempts;
    webhooks = h.webhooks;
  }

  pub SameElsewhere-add_unsubscribe :
      (email reason : String) (now : ℕ) → SameElsewhere ws d (add_unsubscribe ws email reason now e)
  unfolding add_unsubscribe
  SameElsewhere-add_unsubscribe email reason now = record {
    unsubscribes =
        h.unsubscribes
        ∙ sym (keep-upsert_recipient ws (normalize_email email) reason e.unsubscribes);
    messages = h.messages;
    suppressions = h.suppressions;
    accounts = h.accounts;
    policies = h.policies;
    metering = h.metering;
    domains = h.domains;
    attempts = h.attempts;
    webhooks = h.webhooks;
  }

  -- the other tables with new accounts
  with_accounts :
      (rows : List Account)
      → keep (λ (a : Account). elsewhere ws a.workspace_id) rows
        ≡ keep (λ (a : Account). elsewhere ws a.workspace_id) e.accounts
      → SameElsewhere ws d (record e { accounts = rows })
  with_accounts rows k = record {
    accounts = h.accounts ∙ sym k;
    messages = h.messages;
    suppressions = h.suppressions;
    unsubscribes = h.unsubscribes;
    policies = h.policies;
    metering = h.metering;
    domains = h.domains;
    attempts = h.attempts;
    webhooks = h.webhooks;
  }

  own_account : (a : Account) → of_workspace ws a ≡ true → elsewhere ws a.workspace_id ≡ false
  own_account a k = ap not k

  named_account :
      (name : String) (a : Account)
      → is_account ws name a ≡ true
      → elsewhere ws a.workspace_id ≡ false
  named_account name a k = ground (arith, k)

  pub SameElsewhere-put_account :
      (name payload : String) (activate : Bool) (now : ℕ)
      → SameElsewhere ws d (put_account ws name payload activate now e)
  unfolding put_account
  SameElsewhere-put_account name payload activate now =
      elim (Bool-cases (any (is_account ws name) e.accounts)) [
        | inl k ↦
            rw k
              (with_accounts _ (keep-update_if _ _ _ e.accounts (named_account name) (λ a. refl)))
        | inr k ↦ rw k (with_accounts _ (keep-append _ e.accounts _ (own_false ws)))
      ]

  chosen_or_not :
      (none_named : Bool) (rows : List Account)
      → keep (λ (a : Account). elsewhere ws a.workspace_id) rows
        ≡ keep (λ (a : Account). elsewhere ws a.workspace_id) e.accounts
      → SameElsewhere ws d
          (if◌then◌else◌ {A = Result (Unit {0}) × Db} none_named
            (err account_not_found, e)
            (ok tt, record e { accounts = rows })).1
  chosen_or_not true rows k = h
  chosen_or_not false rows k = with_accounts rows k

  pub SameElsewhere-set_active_account :
      (name : String) (now : ℕ) → SameElsewhere ws d (set_active_account ws name now e).1
  unfolding set_active_account
  SameElsewhere-set_active_account name now = chosen_or_not _ _ (
      keep-update_if _ (is_account ws (trim_space name)) _ _ (named_account (trim_space name))
        (λ a. refl)
      ∙ keep-update_if _ (of_workspace ws) _ e.accounts own_account (λ a. refl))

  pub SameElsewhere-upsert_policy :
      (p : WorkspacePolicy) (now : ℕ)
      → p.workspace_id ≡ ws
      → SameElsewhere ws d (upsert_policy p now e)
  unfolding upsert_policy
  SameElsewhere-upsert_policy p now w = record {
    policies =
        h.policies
        ∙ sym (
            subst
              (λ k.
                keep (policy_elsewhere k) (upsert_policy p now e).policies
                ≡ keep (policy_elsewhere k) e.policies)
              w
              (keep-put_policy
                (record { policy = p; blocked = join "," p.blocked_recipient_domains })
                e.policies));
    messages = h.messages;
    suppressions = h.suppressions;
    unsubscribes = h.unsubscribes;
    accounts = h.accounts;
    metering = h.metering;
    domains = h.domains;
    attempts = h.attempts;
    webhooks = h.webhooks;
  }

  pub SameElsewhere-upsert_domain_verification :
      (domain : String) (verified : Bool) (now : ℕ)
      → SameElsewhere ws d (upsert_domain_verification ws domain verified now e)
  unfolding upsert_domain_verification
  SameElsewhere-upsert_domain_verification domain verified now = record {
    domains = h.domains ∙ sym (keep-upsert_domain ws domain verified e.domains);
    messages = h.messages;
    suppressions = h.suppressions;
    unsubscribes = h.unsubscribes;
    accounts = h.accounts;
    policies = h.policies;
    metering = h.metering;
    attempts = h.attempts;
    webhooks = h.webhooks;
  }
