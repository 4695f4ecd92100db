-- ===== src/Service/Queueing/Admission.antt =====
-- Which checks a recipient has passed when QueueMessage goes on to write the message.
use maild.Base.{ℕ, ◌-◌, ◌≡◌, ap, ◌∙◌, Bool, true, false, ◌&&◌, Option, none, some, String}
use mathlib.Core.Path.{subst}
use maild.Base.Int.{ℤ, pos, ltb_ℤ, leb_ℤ}
use maild.Text.{mem_text}
use maild.Domain.{WorkspacePolicy}
use maild.Store.Defs.{Db, Result, ok}
use maild.Store.Messages.{count_messages_since}
use maild.Store.Policies.{get_policy}
use maild.World.{State, RateKey}
use maild.World.Keeps.{Keeps, keeps_rules, Keeps-redis}
use maild.World.Grants.{
  Grants, Grants-pure, Grants-raise, Grants-if, Grants-kept, Grants-bind, Grants-query,
  Grants-clock,
}
use maild.Service.Defs.{MessageService}
use maild.Service.Helpers.{is_blocked_domain}
use maild.Service.Policy.{default_workspace, effective_policy, workspace_policy}
use maild.Service.Queueing.{
  hour, increment_window, allow, check_policy_limit, check_blocked, check_allowed, admit,
}

-- the policy that holds for a workspace in these tables
abbrev pub policy_in : MessageService → ℕ → Db → WorkspacePolicy
policy_in s ws db = effective_policy s (default_workspace ws) (get_policy (default_workspace ws) db)

-- whether a positive limit is reached by the messages of the past hour
abbrev pub at_limit : ℤ → ℕ → String → State → Bool
at_limit limit ws domain st =
    ltb_ℤ (pos 0) limit && leb_ℤ limit (pos (count_messages_since ws domain (st.now - hour) st.db))

-- the policy's checks for a recipient's domain
pub record IsAdmitted (s : MessageService) (ws : ℕ) (domain : String) (st : State) : Type 0 where
  pub below_workspace_limit :
      at_limit (policy_in s ws st.db).rate_limit_workspace_per_hour ws "" st ≡ false
  pub below_domain_limit :
      at_limit (policy_in s ws st.db).rate_limit_domain_per_hour ws domain st ≡ false
  pub not_blocked :
      is_blocked_domain (policy_in s ws st.db).blocked_recipient_domains domain ≡ false
  pub not_blocked_here : mem_text domain s.blocked_recipient_domains ≡ false

module _ (s : MessageService) (ws : ℕ) (before : State) where
  -- only the rate counters may have changed
  abbrev pub Same : State → Type 0
  Same st = (st.db ≡ before.db) × (st.now ≡ before.now)

  policy_granted : Grants Same (λ p. p ≡ policy_in s ws before.db) (workspace_policy s ws)
  unfolding workspace_policy
  policy_granted =
      Grants-bind _ _ _ _ _ (Grants-query _ before.db _ (λ st h. h.0))
        (λ stored e. Grants-pure _ _ _ cc)

  limit_granted :
      (limit : ℤ) (domain reason : String)
      → Grants Same
          (λ _. at_limit limit ws domain before ≡ false)
          (check_policy_limit limit ws domain reason)
  unfolding check_policy_limit
  limit_granted limit domain reason =
      Grants-if _ _ (ltb_ℤ (pos 0) limit) _ _
        (λ h. Grants-bind _ _ _ _ _ (Grants-clock _ before.now (λ st k. k.1)) (λ now at.
          Grants-bind _ _ _ _ _ (Grants-query _ before.db _ (λ st k. k.0)) (λ count counted.
            Grants-if _ _ (leb_ℤ limit (pos count)) _ _ (λ _. Grants-raise _ _ _)
              (λ below. Grants-pure _ _ _ (reached h at counted below)))))
        (λ h. Grants-pure _ _ _ (unlimited h))
    where
      unlimited : ltb_ℤ (pos 0) limit ≡ false → at_limit limit ws domain before ≡ false
      unlimited h =
          ap
            (λ b.
              b && leb_ℤ limit (pos (count_messages_since ws domain (before.now - hour) before.db)))
            h

      reached :
          {now count : ℕ}
          → ltb_ℤ (pos 0) limit ≡ true
          → now ≡ before.now
          → ◌≡◌ {A = Result ℕ}
              (ok (count_messages_since ws domain (now - hour) before.db))
              (ok count)
          → leb_ℤ limit (pos count) ≡ false
          → at_limit limit ws domain before ≡ false
      reached {now} {count} h at counted below =
          let e : count_messages_since ws domain (before.now - hour) before.db ≡ count = cc in
          λ i. (h i) && (ap (λ n. leb_ℤ limit (pos n)) e ∙ below) i

  blocked_granted : (blocked : Bool) → Grants Same (λ _. blocked ≡ false) (check_blocked blocked)
  blocked_granted blocked =
      Grants-if _ _ blocked _ _ (λ _. Grants-raise _ _ _) (λ h. Grants-pure _ _ _ h)

  window-Keeps : (k : RateKey) → Keeps Same (increment_window k)
  unfolding increment_window
  window-Keeps k = Keeps-redis _ (λ st h. h)

  allow-Keeps : (domain : String) → Keeps Same (allow s ws domain)
  unfolding allow
  allow-Keeps domain = search (keeps_rules, window-Keeps) depth 9

  allowed_granted :
      {R : Type 0} → R → (reason : Option String) → Grants Same (λ _. R) (check_allowed reason)
  allowed_granted r none = Grants-pure _ _ _ r
  allowed_granted r (some reason) = Grants-raise _ _ _

  pub admit_granted :
      (domain : String) → Grants Same (λ _. IsAdmitted s ws domain before) (admit s ws domain)
  unfolding admit
  admit_granted domain = Grants-bind _ _ _ _ _ policy_granted (λ policy p.
      Grants-bind _ _ _ _ _ (limit_granted policy.rate_limit_workspace_per_hour _ _) (λ _ l.
        Grants-bind _ _ _ _ _ (limit_granted policy.rate_limit_domain_per_hour _ _) (λ _ d.
          Grants-bind _ _ _ _ _ (blocked_granted _) (λ _ b.
            Grants-bind _ _ _ _ _ (blocked_granted _) (λ _ b'.
              Grants-bind _ _ _ _ _ (Grants-kept _ _ (allow-Keeps domain)) (λ reason _.
                allowed_granted
                  (record {
                    below_workspace_limit =
                        subst (λ q. at_limit q.rate_limit_workspace_per_hour ws "" before ≡ false) p
                          l;
                    below_domain_limit =
                        subst (λ q. at_limit q.rate_limit_domain_per_hour ws domain before ≡ false)
                          p d;
                    not_blocked =
                        subst (λ q. is_blocked_domain q.blocked_recipient_domains domain ≡ false) p
                          b;
                    not_blocked_here = b';
                  })
                  reason))))))
