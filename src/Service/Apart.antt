-- ===== src/Service/Apart.antt =====
-- Which operations of the service leave the rows of the other workspaces alone.
use maild.Base.{ℕ, ◌==◌, ◌≡◌, refl, sym, Bool, false, not, Option, none, some, String}
use maild.Base.Int.{ℤ}
use mathlib.Core.Path.{subst}
use maild.Domain.{SmtpAccount, WorkspacePolicy}
use maild.Store.Defs.{Db, Result, ok, err}
use maild.Store.Elsewhere.{SameElsewhere}
use maild.Store.Others.{
  SameElsewhere-create_message, SameElsewhere-insert_metering_event, SameElsewhere-put_account,
  SameElsewhere-set_active_account, SameElsewhere-upsert_policy,
  SameElsewhere-upsert_domain_verification,
}
use maild.World.{State}
use maild.World.Keeps.{
  Keeps, keeps_rules, Keeps-pure, Keeps-raise, Keeps-exec, Keeps-redis, Keeps-ignore, Keeps-bind,
  Keeps-query,
}
use maild.Service.Defs.{
  QueueKind, absent, plain, scheduling, MessageService, enqueue_on, enqueue, meter, lift,
  resolve_credentials, unsealed,
}
use maild.Service.Queueing.{
  queue_message, admit, allow, increment_window, check_policy_limit, store_and_enqueue,
  check_allowed, draft_of,
}
use maild.DomainCheck.{Resolver, check_readiness}
use maild.Store.Accounts.{put_account}
use maild.Service.Accounts.{
  upsert_smtp_account, store_sealed, set_active_smtp_account, validate_smtp_account, validate_with,
}
use maild.Service.Policy.{workspace_policy, upsert_workspace_policy, completed_policy}

module _ (ws : ℕ) (before : Db) where
  -- the other workspaces' rows are as before
  abbrev pub Apart : State → Type 0
  Apart st = SameElsewhere ws before st.db

  enqueue_on-Keeps : (kind : QueueKind) (id : ℕ) → Keeps Apart (enqueue_on kind id)
  enqueue_on-Keeps absent id = search keeps_rules
  enqueue_on-Keeps plain id = Keeps-redis _ (λ st h. h)
  enqueue_on-Keeps scheduling id = Keeps-redis _ (λ st h. h)

  pub enqueue-Keeps : (s : MessageService) (id : ℕ) → Keeps Apart (enqueue s id)
  unfolding enqueue
  enqueue-Keeps s id = enqueue_on-Keeps s.queue id

  pub meter-Keeps :
      (id : ℕ) (event_type metadata : String) → Keeps Apart (meter ws id event_type metadata)
  unfolding meter
  meter-Keeps id event_type metadata =
      Keeps-ignore _
        (Keeps-exec _ (λ st h. SameElsewhere-insert_metering_event ws before st.db h _ st.now refl))

  pub workspace_policy-Keeps : (s : MessageService) → Keeps Apart (workspace_policy s ws)
  unfolding workspace_policy
  workspace_policy-Keeps s = search keeps_rules depth 9

  window-Keeps : (k : _) → Keeps Apart (increment_window k)
  unfolding increment_window
  window-Keeps k = Keeps-redis _ (λ st h. h)

  allow-Keeps : (s : MessageService) (domain : String) → Keeps Apart (allow s ws domain)
  unfolding allow
  allow-Keeps s domain = search (keeps_rules, window-Keeps) depth 9

  limit-Keeps :
      (limit : ℤ) (domain reason : String) → Keeps Apart (check_policy_limit limit ws domain reason)
  unfolding check_policy_limit
  limit-Keeps limit domain reason = search keeps_rules depth 12

  allowed-Keeps : (o : Option String) → Keeps Apart (check_allowed o)
  allowed-Keeps none = search keeps_rules
  allowed-Keeps (some reason) = search keeps_rules

  admit-Keeps : (s : MessageService) (domain : String) → Keeps Apart (admit s ws domain)
  unfolding admit
  admit-Keeps s domain =
      search (keeps_rules, workspace_policy-Keeps, limit-Keeps, allow-Keeps, allowed-Keeps) depth 12

  store-Keeps :
      (s : MessageService) (stopped b : Bool) (from_email to_email subject body : String)
      → Keeps Apart (store_and_enqueue s stopped (draft_of ws from_email to_email subject body b))
  unfolding store_and_enqueue
  store-Keeps s stopped b from_email to_email subject body =
      Keeps-bind _ _
        (Keeps-exec _ (λ st h. SameElsewhere-create_message ws before st.db h _ st.now refl))
        (λ m. search (keeps_rules, enqueue-Keeps, meter-Keeps) depth 9)

  pub queue_message-Keeps :
      (s : MessageService) (from_email to_email subject body : String)
      → Keeps Apart (queue_message s ws from_email to_email subject body)
  unfolding queue_message
  queue_message-Keeps s from_email to_email subject body =
      search (keeps_rules, admit-Keeps, store-Keeps) depth 12

  lift-Keeps : {A : Type 0} (r : Result A) → Keeps Apart (lift r)
  lift-Keeps (ok a) = Keeps-pure a
  lift-Keeps (err e) = Keeps-raise e

  pub upsert_smtp_account-Keeps :
      (s : MessageService) (account : SmtpAccount)
      → account.workspace_id ≡ ws
      → Keeps Apart (upsert_smtp_account s account)
  unfolding upsert_smtp_account store_sealed
  upsert_smtp_account-Keeps s account w = Keeps-bind _ _ (lift-Keeps _) (λ checked.
      Keeps-bind _ _ (lift-Keeps _) (λ payload. Keeps-bind _ _ (Keeps-query _) (λ has_any.
        Keeps-exec _ (λ st h.
          subst
            (λ k.
              SameElsewhere ws before
                (put_account k account.name payload (not has_any) st.now st.db))
            (sym w)
            (SameElsewhere-put_account ws before st.db h account.name payload (not has_any)
              st.now)))))

  pub set_active_smtp_account-Keeps :
      (name : String) → Keeps Apart (set_active_smtp_account ws name)
  unfolding set_active_smtp_account
  set_active_smtp_account-Keeps name =
      Keeps-exec _ (λ st h. SameElsewhere-set_active_account ws before st.db h name st.now)

  credentials-Keeps : (s : MessageService) → Keeps Apart (resolve_credentials s ws)
  unfolding resolve_credentials
  credentials-Keeps s = Keeps-bind _ _ (Keeps-query _) of_payload
    where
      of_payload : (o : Option String) → Keeps Apart (unsealed s o)
      of_payload none = search keeps_rules
      of_payload (some payload) = search (keeps_rules, lift-Keeps)

  pub validate_smtp_account-Keeps : (s : MessageService) → Keeps Apart (validate_smtp_account s ws)
  unfolding validate_smtp_account validate_with
  validate_smtp_account-Keeps s =
      Keeps-bind _ _ (credentials-Keeps s)
        (λ creds. Keeps-bind _ _ (record { at = λ w h. h }) (λ _. Keeps-pure _))

  -- the policy of the workspace itself, which is not the workspace 0
  pub upsert_workspace_policy-Keeps :
      (s : MessageService) (p : WorkspacePolicy)
      → p.workspace_id ≡ ws
      → (ws == 0) ≡ false
      → Keeps Apart (upsert_workspace_policy s p)
  unfolding upsert_workspace_policy completed_policy
  upsert_workspace_policy-Keeps s p w z = Keeps-exec _ (λ st h.
      SameElsewhere-upsert_policy ws before st.db h (completed_policy s p) st.now (rw (w, z) refl))

  pub check_readiness-Keeps :
      (resolver : Resolver) (domain selector : String)
      → Keeps Apart (check_readiness resolver ws domain selector)
  unfolding check_readiness
  check_readiness-Keeps resolver domain selector = Keeps-bind _ _ (lift-Keeps _) (λ r.
      Keeps-bind _ _
        (Keeps-exec _ (λ st h.
          SameElsewhere-upsert_domain_verification ws before st.db h r.domain r.ready st.now))
        (λ _. Keeps-pure _))
