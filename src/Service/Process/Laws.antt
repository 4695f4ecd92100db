-- ===== src/Service/Process/Laws.antt =====
-- What ProcessOne does to the outbox and to the tables, on every path.
use maild.Base.{ℕ, Bool, true, false, Option, none, some, String}
use maild.Domain.{Status, queued, sending, Message}
use maild.Store.Defs.{Err, Result, ok, err}
use maild.Store.Messages.{insert_attempt}
use maild.Smtp.{Credentials}
use maild.World.{State, Act, handle, exec, send}
use maild.World.Keeps.{Keeps, keeps_rules, Keeps-query}
use maild.World.Ensures.{
  Ensures, Ensures-kept, Ensures-if, Ensures-handle, Ensures-bind, Ensures-then,
}
use maild.Service.Defs.{QueueKind, MessageService, meter, resolve_credentials, unsealed, lift}
use maild.Service.Failover.{try_auto_failover}
use maild.Service.Process.{
  set_status, transition, requeue, claim_kept, put_back, schedule_retry_state, release,
  mark_unknown, on_error, record_sent, report_switch, give_up_or_retry, record_failure, deliver,
  process_claimed, claim_and_process,
}

-- What a predicate of the state needs so that every step of ProcessOne for the message `id` keeps
-- it, sending apart.
pub record Tame (s : MessageService) (id : ℕ) (P : State → Type 0) : Type 0 where
  pub on_status : (status : Status) → Keeps P (set_status id status)
  pub on_transition : (source target : Status) → Keeps P (transition id source target)
  pub on_put_back : (at : ℕ) → Keeps P (put_back s id at)
  pub on_requeue : (kind : QueueKind) (at : ℕ) → Keeps P (requeue s kind id at)
  pub on_attempt :
      (number : ℕ) (provider response : String) (success : Bool)
      → Keeps P (exec (insert_attempt id number provider response success))
  pub on_meter : (ws : ℕ) (event_type metadata : String) → Keeps P (meter ws id event_type metadata)
  pub on_failover : (ws : ℕ) (provider : String) → Keeps P (try_auto_failover s ws provider)

module _ (s : MessageService) (id : ℕ) (P : State → Type 0) (tame : Tame s id P) where
  open tame use {
    on_status, on_transition, on_put_back, on_requeue, on_attempt, on_meter, on_failover,
  }

  schedule-Keeps : (at : ℕ) → Keeps P (schedule_retry_state s id at)
  unfolding schedule_retry_state
  schedule-Keeps at = search (keeps_rules, on_put_back, on_requeue)

  release-Keeps : (e : Err) → Keeps P (release s id e)
  unfolding release
  release-Keeps e = search (keeps_rules, schedule-Keeps)

  mark_unknown-Keeps : (e : Err) → Keeps P (mark_unknown id e)
  unfolding mark_unknown
  mark_unknown-Keeps e = search (keeps_rules, on_status)

  claim_kept-Keeps : (b : Bool) → Keeps P (claim_kept b)
  claim_kept-Keeps true = search keeps_rules
  claim_kept-Keeps false = search keeps_rules

  on_error-Keeps :
      {A : Type 0} (error_path : Err → Act (Unit {0})) (ok_path : A → Act (Unit {0})) (r : Result A)
      → ((e : Err) → Keeps P (error_path e))
      → ((a : A) → Keeps P (ok_path a))
      → Keeps P (on_error error_path ok_path r)
  on_error-Keeps error_path ok_path (ok a) ke ko = ko a
  on_error-Keeps error_path ok_path (err e) ke ko = ke e

module _ (s : MessageService) (m : Message) (P : State → Type 0) (tame : Tame s m.id P) where
  open tame use {
    on_status, on_transition, on_put_back, on_requeue, on_attempt, on_meter, on_failover,
  }

  record_sent-Keeps : (number : ℕ) (provider : String) → Keeps P (record_sent m number provider)
  unfolding record_sent
  record_sent-Keeps number provider =
      search
        (
          keeps_rules,
          on_attempt,
          on_meter,
          on_status,
          mark_unknown-Keeps s m.id P tame,
          on_error-Keeps s m.id P tame,
        )
        depth 9

  report_switch-Keeps :
      (provider : String) (r : Result (Option String)) → Keeps P (report_switch s m provider r)
  report_switch-Keeps provider (ok (some target)) = on_meter _ _ _
  report_switch-Keeps provider (ok none) = search keeps_rules
  report_switch-Keeps provider (err e) = search keeps_rules

  give_up_or_retry-Keeps :
      (number : ℕ) (provider : String) → Keeps P (give_up_or_retry s m number provider)
  unfolding give_up_or_retry
  give_up_or_retry-Keeps number provider = search (
    keeps_rules,
    on_meter,
    on_transition,
    claim_kept-Keeps s m.id P tame,
    schedule-Keeps s m.id P tame,
  )

  record_failure-Keeps :
      (number : ℕ) (provider text : String) → Keeps P (record_failure s m number provider text)
  unfolding record_failure
  record_failure-Keeps number provider text =
      search
        (
          keeps_rules,
          on_attempt,
          on_meter,
          on_failover,
          report_switch-Keeps,
          give_up_or_retry-Keeps,
          mark_unknown-Keeps s m.id P tame,
          on_error-Keeps s m.id P tame,
        )
        depth 9

module _ (s : MessageService) (P : State → Type 0) where
  lift-Keeps : {A : Type 0} (r : Result A) → Keeps P (lift r)
  lift-Keeps (ok a) = search keeps_rules
  lift-Keeps (err e) = search keeps_rules

  unsealed-Keeps : (o : Option String) → Keeps P (unsealed s o)
  unsealed-Keeps none = search keeps_rules
  unsealed-Keeps (some payload) = search (keeps_rules, lift-Keeps)

  resolve_credentials-Keeps : (ws : ℕ) → Keeps P (resolve_credentials s ws)
  unfolding resolve_credentials
  resolve_credentials-Keeps ws = search (keeps_rules, unsealed-Keeps)

-- From a state with `P`, sending leads to `Q`, which every later step keeps: then so does ProcessOne
-- from the sending on.
module _ (s : MessageService) (m : Message) (P Q : State → Type 0) (tame : Tame s m.id P)
    (tame' : Tame s m.id Q) (weaker : (st : State) → P st → Q st)
    (on_send : (creds : Credentials)
      → Ensures P Q (send creds m.to_email m.subject m.body_text)) where
  deliver-Ensures : (number : ℕ) (creds : Credentials) → Ensures P Q (deliver s m number creds)
  unfolding deliver
  deliver-Ensures number creds = Ensures-then _ _ _ _ (on_send creds) (λ r.
      on_error-Keeps s m.id Q tame' _ _ r (λ e. record_failure-Keeps s m Q tame' _ _ _)
        (λ _. record_sent-Keeps s m Q tame' _ _))

  released : (e : Err) → Ensures P Q (release s m.id e)
  released e = Ensures-kept _ _ _ weaker (release-Keeps s m.id P tame e)

  on_credentials :
      (number : ℕ) (r : Result Credentials)
      → Ensures P Q (on_error (release s m.id) (λ creds. deliver s m number creds) r)
  on_credentials number (ok creds) = deliver-Ensures number creds
  on_credentials number (err e) = released e

  on_number :
      (r : Result ℕ)
      → Ensures P Q (
          on_error
            (release s m.id)
            (λ number.
              handle
                (resolve_credentials s m.workspace_id)
                (on_error (release s m.id) (λ creds. deliver s m number creds)))
            r)
  on_number (ok number) =
      Ensures-handle _ _ _ _ (resolve_credentials-Keeps s P m.workspace_id) (on_credentials number)
  on_number (err e) = released e

  process_claimed-Ensures : Ensures P Q (process_claimed s m)
  unfolding process_claimed
  process_claimed-Ensures = Ensures-handle _ _ _ _ (Keeps-query _) on_number

  pub claim_and_process-Ensures : Ensures P Q (claim_and_process s m)
  unfolding claim_and_process
  claim_and_process-Ensures = Ensures-bind _ _ _ _ weaker (tame.on_transition queued sending) (λ b.
      Ensures-if _ _ b _ _ (λ _. process_claimed-Ensures)
        (λ _. Ensures-kept _ _ _ weaker (search keeps_rules)))
