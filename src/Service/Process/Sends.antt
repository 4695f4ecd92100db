-- ===== src/Service/Process/Sends.antt =====
-- What ProcessOne hands to the SMTP relay, whatever goes wrong on the way.
use maild.Base.{
  ℕ, ◌≡◌, ◌⊎◌, inl, inr, refl, ap, Bool, true, false, ◌||◌, Option, none, some, List, [], ◌∷◌, ◌++◌,
  String,
}
use mathlib.Core.Option
use maild.Domain.{Status, queued, sent, suppressed, same_status, Message}
use maild.Store.Defs.{Db, Result, ok}
use maild.Store.Messages.{get_message, insert_attempt}
use maild.Store.Recipients.{is_suppressed, is_unsubscribed}
use maild.Store.Accounts.{set_active_account}
use maild.Smtp.{Credentials, provider_name}
use maild.World.{Mail, State, World, pure, exec, send, put_mail}
use maild.World.Keeps.{Keeps, keeps_rules, Keeps-exec, Keeps-redis, Keeps-ignore, Keeps-pure}
use maild.World.Ensures.{Ensures, Is, Ensures-kept, Ensures-if, Ensures-query}
use maild.Domain.{SmtpAccountSummary}
use maild.Service.Defs.{
  QueueKind, absent, plain, scheduling, MessageService, enqueue_on, enqueue, meter,
}
use maild.Service.Failover.{try_auto_failover, switch_to}
use maild.Service.Process.{
  set_status, transition, sleep_until, requeue, claim_kept, put_back, claim_and_process,
  process_queued, process_one,
}
use maild.Service.Process.Laws.{Tame, claim_and_process-Ensures}

-- A predicate of the outbox alone is kept by every step but sending.
module _ (s : MessageService) (id : ℕ) (F : List Mail → Type 0) where
  abbrev OfOutbox : State → Type 0
  OfOutbox st = F st.outbox

  status-Keeps : (status : Status) → Keeps OfOutbox (set_status id status)
  unfolding set_status
  status-Keeps status = Keeps-exec _ (λ st h. h)

  transition-Keeps : (source target : Status) → Keeps OfOutbox (transition id source target)
  unfolding transition
  transition-Keeps source target = Keeps-exec _ (λ st h. h)

  claim-Keeps : (b : Bool) → Keeps OfOutbox (claim_kept b)
  claim-Keeps true = search keeps_rules
  claim-Keeps false = search keeps_rules

  retry_at-Keeps : (f : ℕ → Db → Result Bool × Db) → Keeps OfOutbox (exec f)
  retry_at-Keeps f = Keeps-exec _ (λ st h. h)

  put_back-Keeps : (at : ℕ) → Keeps OfOutbox (put_back s id at)
  unfolding put_back
  put_back-Keeps at = search (keeps_rules, retry_at-Keeps, claim-Keeps, status-Keeps)

  sleep-Keeps : (at : ℕ) → Keeps OfOutbox (sleep_until at)
  unfolding sleep_until
  sleep-Keeps at = record { at = λ w h. h }

  enqueue_on-Keeps : (kind : QueueKind) → Keeps OfOutbox (enqueue_on kind id)
  enqueue_on-Keeps absent = search keeps_rules
  enqueue_on-Keeps plain = Keeps-redis _ (λ st h. h)
  enqueue_on-Keeps scheduling = Keeps-redis _ (λ st h. h)

  enqueue-Keeps : Keeps OfOutbox (enqueue s id)
  unfolding enqueue
  enqueue-Keeps = enqueue_on-Keeps s.queue

  requeue-Keeps : (kind : QueueKind) (at : ℕ) → Keeps OfOutbox (requeue s kind id at)
  requeue-Keeps absent at = search keeps_rules
  requeue-Keeps plain at = search (keeps_rules, sleep-Keeps, enqueue-Keeps)
  requeue-Keeps scheduling at = Keeps-redis _ (λ st h. h)

  meter-Keeps :
      (ws : ℕ) (event_type metadata : String) → Keeps OfOutbox (meter ws id event_type metadata)
  unfolding meter
  meter-Keeps ws event_type metadata = Keeps-ignore _ (Keeps-exec _ (λ st h. h))

  attempt-Keeps :
      (number : ℕ) (provider response : String) (success : Bool)
      → Keeps OfOutbox (exec (insert_attempt id number provider response success))
  attempt-Keeps number provider response success = Keeps-exec _ (λ st h. h)

  activate-Keeps : (ws : ℕ) (name : String) → Keeps OfOutbox (exec (set_active_account ws name))
  activate-Keeps ws name = Keeps-exec _ (λ st h. h)

  switch-Keeps :
      (ws : ℕ) (picked : Option SmtpAccountSummary × Option SmtpAccountSummary)
      → Keeps OfOutbox (switch_to s ws picked)
  switch-Keeps ws (none, standby) = search keeps_rules
  switch-Keeps ws (some active, none) = search keeps_rules
  switch-Keeps ws (some active, some standby) = search (keeps_rules, activate-Keeps) depth 9

  failover-Keeps : (ws : ℕ) (provider : String) → Keeps OfOutbox (try_auto_failover s ws provider)
  unfolding try_auto_failover
  failover-Keeps ws provider = search (keeps_rules, switch-Keeps) depth 12

  outbox-Tame : Tame s id OfOutbox
  outbox-Tame = record {
    on_status = status-Keeps;
    on_transition = transition-Keeps;
    on_put_back = put_back-Keeps;
    on_requeue = requeue-Keeps;
    on_attempt = attempt-Keeps;
    on_meter = meter-Keeps;
    on_failover = failover-Keeps;
  }

-- the outbox grew by one mail to the recipient of `m`
abbrev pub OneMail : Message → List Mail → List Mail → Type 0
OneMail m before after =
    (mail : Mail) × (mail.to_email ≡ m.to_email) × (after ≡ before ++ mail ∷ [])

-- the row of `id` is `m`, which is queued, and its recipient may be written to
abbrev pub MayBeSent : ℕ → Db → Message → Type 0
MayBeSent id db m =
    (get_message id db ≡ ok m)
    × (same_status m.status queued ≡ true)
    × ((is_suppressed m.workspace_id m.to_email db || is_unsubscribed m.workspace_id m.to_email db)
        ≡ false)

-- no mail, or one mail for a message that may be sent
abbrev pub AtMostOneMail : ℕ → State → List Mail → Type 0
AtMostOneMail id before after =
    (after ≡ before.outbox)
    ⊎ ((m : Message) × MayBeSent id before.db m × OneMail m before.outbox after)

module _ (s : MessageService) (id : ℕ) (before : State) where
  abbrev Same : State → Type 0
  Same st = st.outbox ≡ before.outbox

  abbrev Done : State → Type 0
  Done st = AtMostOneMail id before st.outbox

  send-Ensures :
      (m : Message) (may : MayBeSent id before.db m) (creds : Credentials)
      → Ensures Same Done (send creds m.to_email m.subject m.body_text)
  unfolding send
  send-Ensures m may creds = record { at = λ w e. on_mail _ _ e }
    where
      on_mail :
          (text : Option String) (mails : List Mail)
          → mails ≡ before.outbox
          → AtMostOneMail id before (
              put_mail
                (Option.map
                  (λ t. record { provider = provider_name creds; to_email = m.to_email; text = t })
                  text)
                mails)
      on_mail none mails e = inl e
      on_mail (some t) mails e = inr (
        m,
        may,
        (
          record { provider = provider_name creds; to_email = m.to_email; text = t },
          refl,
          ap
              (λ xs.
                xs
                ++ record { provider = provider_name creds; to_email = m.to_email; text = t } ∷ [])
              e,
        ),
      )

  claimed :
      (m : Message) → MayBeSent id before.db m → Ensures (Is before) Done (claim_and_process s m)
  claimed m may = record {
    at = λ w e.
        (claim_and_process-Ensures s m Same Done (outbox-Tame s m.id (λ xs. xs ≡ before.outbox))
            (outbox-Tame s m.id (AtMostOneMail id before)) (λ st h. inl h) (send-Ensures m may)).at
          w (ap (λ st. st.outbox) e);
  }

  stopped : (m : Message) → Ensures (Is before) Done (set_status m.id suppressed)
  stopped m = record {
    at = λ w e.
        inl (
          (status-Keeps s m.id (λ xs. xs ≡ before.outbox) suppressed).at w
            (ap (λ st. st.outbox) e));
  }

  process_queued-Ensures :
      (m : Message)
      → get_message id before.db ≡ ok m
      → same_status m.status queued ≡ true
      → Ensures (Is before) Done (process_queued s m)
  unfolding process_queued
  process_queued-Ensures m found is_queued = Ensures-query before Done _ _ (inl refl) (λ a p.
      Ensures-query before Done _ _ (inl refl) (λ b q.
        Ensures-if _ _ (a || b) _ _ (λ _. stopped m) (λ h. claimed m (found, is_queued, cc))))

  process_one-Ensures : Ensures (Is before) Done (process_one s id)
  unfolding process_one
  process_one-Ensures = Ensures-query before Done _ _ (inl refl) (λ m found.
      Ensures-if _ _ (same_status m.status suppressed || same_status m.status sent) _ _
        (λ _. unchanged)
        (λ _.
          Ensures-if _ _ (same_status m.status queued) _ _ (λ h. process_queued-Ensures m found h)
            (λ _. unchanged)))
    where
      unchanged : Ensures (Is before) Done (pure tt)
      unchanged = Ensures-kept _ _ _ (λ st e. inl (ap (λ x. x.outbox) e)) (Keeps-pure tt)

-- One call of ProcessOne, whatever database, queue or relay error it meets, hands the relays no mail,
-- or exactly one, to the recipient of the message `id`, which then was queued at the start, and whose
-- recipient was neither suppressed nor unsubscribed.
pub process_one_sends :
    (s : MessageService) (id : ℕ) (w : World)
    → AtMostOneMail id w.state (process_one s id w).1.state.outbox
process_one_sends s id w = (process_one-Ensures s id w.state).at w refl

-- ProcessOne of a message that is not queued, or of an unknown one, changes nothing.
pub process_one_skips :
    (s : MessageService) (id : ℕ) (w : World)
    → ((m : Message) → get_message id w.state.db ≡ ok m → same_status m.status queued ≡ false)
    → (process_one s id w).1.state ≡ w.state
unfolding process_one
process_one_skips s id w skip =
    (Ensures-query w.state (Is w.state) _ _ refl (λ m found.
        Ensures-if _ _ (same_status m.status suppressed || same_status m.status sent) _ _
          (λ _. Ensures-kept _ _ _ (λ st e. e) (Keeps-pure tt))
          (λ _.
            Ensures-if _ _ (same_status m.status queued) _ _ (λ h. absurd (cc (h, skip m found)))
              (λ _. Ensures-kept _ _ _ (λ st e. e) (Keeps-pure tt))))).at
      w refl
