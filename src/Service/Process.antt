-- ===== src/Service/Process.antt =====
-- internal/service/message_service.go: ProcessOne and scheduleRetryState.
pub mod Laws
pub mod Sends
pub mod Claims
pub mod Delivers
pub mod GivesUp
pub mod Rounds
use Prim.Native.String.{◌++◌ as ◌+s◌}
use maild.Base.{
  ℕ, ◌+◌, ◌-◌, Bool, true, false, ◌&&◌, ◌||◌, Option, some, [], ◌∷◌, String, ltb, leb, ◌==◌,
  if◌then◌else◌,
}
use maild.Domain.{Status, queued, sending, sent, failed, suppressed, unknown, same_status, Message}
use maild.Sanitize.{smtp_error}
use maild.Store.Defs.{Err, claim_lost, queue_unavailable, joined, Result, ok, err}
use maild.Store.Messages.{
  get_message, set_message_status, transition_message_status, set_message_retry_at, next_attempt_no,
  insert_attempt,
}
use maild.Store.Recipients.{is_suppressed, is_unsubscribed}
use maild.Queue
use maild.Smtp.{Credentials, provider_name}
use maild.World.{Act, pure, raise, handle, ◌>>=◌, ◌>>◌, query, exec, redis, clock, send}
use maild.Service.Defs.{
  QueueKind, absent, plain, scheduling, MessageService, minute, enqueue, meter, resolve_credentials,
}
use maild.Service.Failover.{try_auto_failover}
use maild.Service.Helpers.{backoff_duration}

unfoldable pub set_status : ℕ → Status → Act (Unit {0})
set_status id status = exec (λ now db. (ok tt, set_message_status id status now db))

unfoldable pub transition : ℕ → Status → Status → Act Bool
transition id source target =
    exec (λ now db. let (b, db') = transition_message_status id source target now db in (ok b, db'))

-- time.Sleep until the instant
unfoldable pub sleep_until : ℕ → Act (Unit {0})
sleep_until at w = (
  ok tt,
  record w { state = record w.state { now = if ltb w.state.now at then at else w.state.now } },
)

-- the end of scheduleRetryState
abbrev pub requeue : MessageService → QueueKind → ℕ → ℕ → Act (Unit {0})
requeue s scheduling id at =
    redis (λ st. (tt, record st { queue = Queue.schedule_retry id at st.queue }))
requeue s absent id at = raise queue_unavailable
requeue s plain id at = do sleep_until at; enqueue s id

abbrev pub claim_kept : Bool → Act (Unit {0})
claim_kept true = pure tt
claim_kept false = raise claim_lost

-- the status part of scheduleRetryState
unfoldable pub put_back : MessageService → ℕ → ℕ → Act (Unit {0})
put_back s id at =
    if s.retry_at_store
    then (do
      updated ← exec (λ now db. let (b, db') = set_message_retry_at id at now db in (ok b, db'))
      claim_kept updated)
    else set_status id queued

-- scheduleRetryState
unfoldable pub schedule_retry_state : MessageService → ℕ → ℕ → Act (Unit {0})
schedule_retry_state s id at = do put_back s id at; requeue s s.queue id at

-- errors.Join(err, other), where `other` may be nil
abbrev pub join_errors : {A : Type 0} → Err → Result A → Err
join_errors e (ok _) = e
join_errors e (err e') = joined e e'

-- the error path before the message is sent: it is queued again for a minute later
unfoldable pub release : MessageService → ℕ → Err → Act (Unit {0})
release s id e = do
  now ← clock
  handle (schedule_retry_state s id (now + minute)) (λ r. raise (join_errors e r))

-- the error path after the relay was spoken to: the outcome is unknown
unfoldable pub mark_unknown : ℕ → Err → Act (Unit {0})
mark_unknown id e = handle (set_status id unknown) (λ r. raise (join_errors e r))

-- what is returned after a call whose error leads to another path
abbrev pub on_error :
    {A : Type 0} → (Err → Act (Unit {0})) → (A → Act (Unit {0})) → Result A → Act (Unit {0})
on_error error_path ok_path (ok a) = ok_path a
on_error error_path ok_path (err e) = error_path e

abbrev pub provider_metadata : String → String
provider_metadata provider = "{\"provider\":\"" +s provider +s "\"}"

-- the branch of ProcessOne after a send without error
unfoldable pub record_sent : Message → ℕ → String → Act (Unit {0})
record_sent m number provider =
    handle (exec (insert_attempt m.id number provider "accepted by smtp server" true)) (
      on_error (mark_unknown m.id) (λ _. do
        meter m.workspace_id m.id "message_sent" (provider_metadata provider)
        handle (set_status m.id sent) (on_error (mark_unknown m.id) (λ _. pure tt))))

abbrev pub report_switch :
    MessageService → Message → String → Result (Option String) → Act (Unit {0})
report_switch s m provider (ok (some target)) =
    meter m.workspace_id m.id "provider_auto_failover"
      (s.json (("from", provider) ∷ ("to", target) ∷ []))
report_switch s m provider _ = pure tt

-- the end of ProcessOne: give up, or try again later
unfoldable pub give_up_or_retry : MessageService → Message → ℕ → String → Act (Unit {0})
give_up_or_retry s m number provider =
    if leb s.max_attempts number
    then (do
      meter m.workspace_id m.id "message_failed" (provider_metadata provider)
      ok' ← transition m.id sending failed
      claim_kept ok')
    else (do now ← clock; schedule_retry_state s m.id (now + backoff_duration number))

-- err.Error() of a failed send
abbrev pub error_text : Err → String
error_text (Err.smtp_error text) = text
error_text _ = ""

-- the branch of ProcessOne after a send with an error
unfoldable pub record_failure : MessageService → Message → ℕ → String → String → Act (Unit {0})
record_failure s m number provider text =
    handle (exec (insert_attempt m.id number provider text false)) (
      on_error (mark_unknown m.id) (λ _. do
        meter m.workspace_id m.id "message_send_error"
            (s.json (("provider", provider) ∷ ("error", text) ∷ []))
        handle (try_auto_failover s m.workspace_id provider) (report_switch s m provider)
        give_up_or_retry s m number provider))

-- ProcessOne from the call of Send on
unfoldable pub deliver : MessageService → Message → ℕ → Credentials → Act (Unit {0})
deliver s m number creds = handle (send creds m.to_email m.subject m.body_text) (
    on_error (λ e. record_failure s m number (provider_name creds) (smtp_error (error_text e)))
      (λ _. record_sent m number (provider_name creds)))

-- ProcessOne after the claim
unfoldable pub process_claimed : MessageService → Message → Act (Unit {0})
process_claimed s m = handle (query (λ db. ok (next_attempt_no m.id db))) (
    on_error (release s m.id) (λ number.
      handle (resolve_credentials s m.workspace_id)
        (on_error (release s m.id) (λ creds. deliver s m number creds))))

-- ProcessOne from the claim on
unfoldable pub claim_and_process : MessageService → Message → Act (Unit {0})
claim_and_process s m = do
  ok' ← transition m.id queued sending
  if ok' then process_claimed s m else pure tt

-- ProcessOne for a queued message: its recipient is looked up again
unfoldable pub process_queued : MessageService → Message → Act (Unit {0})
process_queued s m = do
  stopped ← query (λ db. ok (is_suppressed m.workspace_id m.to_email db))
  unsubscribed ← query (λ db. ok (is_unsubscribed m.workspace_id m.to_email db))
  if stopped || unsubscribed then set_status m.id suppressed else claim_and_process s m

-- ProcessOne
unfoldable pub process_one : MessageService → ℕ → Act (Unit {0})
process_one s id = do
  m ← query (get_message id)
  if same_status m.status suppressed || same_status m.status sent
      then pure tt
      else if same_status m.status queued
      then process_queued s m
      else pure tt
