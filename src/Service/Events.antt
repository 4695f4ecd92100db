-- ===== src/Service/Events.antt =====
-- internal/service/message_service.go: ProcessWebhookEvent, RecordWebhookDeadLetter,
-- ReplayWebhookDeadLetters and what they call. The pause between two attempts is not modelled.
pub mod Laws
pub mod Attempts
use Prim.Native.String.{◌++◌ as ◌+s◌}
use maild.Base.{
  ℕ, zero, suc, ◌+◌, ◌&&◌, ◌||◌, Option, none, some, List, [], ◌∷◌, ◌++◌, String, length, ◌==◌,
  str_eq, if◌then◌else◌,
}
use maild.Base.Int.{ℤ}
use maild.Text.{trim_space, to_lower, normalize}
use maild.Decimal.{decimal}
use maild.Domain.{
  EventStatus, processing, applied, dead_letter, replayed, is_replayed, WebhookEvent,
}
use maild.Store.Defs.{Err, other, Result, ok, err}
use maild.Store.Recipients.{add_suppression, add_unsubscribe}
use maild.Store.Webhooks.{
  classify_bounce, insert_webhook_event, clamp_limit, list_dead_letters, list_dead_letters_by_id,
  update_replay_result, missing_email, unclassified, process_event_atomic, replay_event_atomic,
}
use maild.World.{Act, pure, raise, handle, ◌>>=◌, ◌>>◌, query, exec}
use maild.Service.Defs.{MessageService}
use maild.Service.Helpers.{normalize_positive_ids, webhook_identity_key}
use maild.Service.Policy.{default_workspace}

-- one round of the loop of applyWebhookEventWithRetry
unfoldable pub apply_once : ℕ → String → String → String → Act (Unit {0})
apply_once ws event_type email reason =
    if str_eq event_type "bounce_permanent" || str_eq event_type "complaint"
    then exec (λ now db. (ok tt, add_suppression ws email reason now db))
    else if str_eq event_type "unsubscribe"
    then exec (λ now db. (ok tt, add_unsubscribe ws email reason now db))
    else raise (other ("unsupported webhook event type: " +s event_type))

-- the loop: `left` rounds are left, the next is number `number`, and `last` is the error so far
unfoldable pub apply_rounds : ℕ → ℕ → Err → Act (Unit {0}) → Act (ℕ × Result (Unit {0}))
apply_rounds zero number last round = pure (number, err last)
apply_rounds (suc left) number last round =
    handle round
      (elim [ ok _ ↦ pure (suc number, ok tt) | err e ↦ apply_rounds left (suc number) e round ])

-- applyWebhookEventWithRetry: the number of attempts, and how the last one ended
unfoldable pub apply_with_retry :
    MessageService → ℕ → String → String → String → Act (ℕ × Result (Unit {0}))
unfolding apply_rounds
apply_with_retry s ws event_type email reason =
    if str_eq event_type "bounce_temporary"
    then pure (1, ok tt)
    else if str_eq event_type "bounce_unclassified" || str_eq event_type "bounce"
    then pure (1, err (other unclassified))
    else apply_rounds s.webhook_apply_max_attempts 0 (other "")
        (apply_once ws event_type email reason)

-- the reason that stands in for an empty one
unfoldable pub default_reason : String → String → String
default_reason event_type reason =
    if str_eq reason ""
    then if str_eq event_type "bounce_permanent"
        || str_eq event_type "bounce_temporary"
        || str_eq event_type "bounce_unclassified"
        || str_eq event_type "complaint"
      then "provider_" +s event_type
      else if str_eq event_type "unsubscribe"
      then "provider_unsubscribe"
      else reason
    else reason

-- err.Error() of an error of applyWebhookEventWithRetry
abbrev pub error_text : Err → String
error_text (other text) = text
error_text _ = "database error"

unfoldable pub insert_event : MessageService → WebhookEvent → Act WebhookEvent
insert_event s e =
    exec
      (λ now db. let (row, db') = insert_webhook_event s.digest decimal e now db in (ok row, db'))

-- the fields of an event that is about to be stored
abbrev pub new_event :
    ℕ → String → String → String → String → EventStatus → ℕ → String → String → WebhookEvent
new_event ws event_type email reason key status attempts error raw = record {
  id = 0;
  workspace_id = ws;
  event_type = event_type;
  identity_key = key;
  email = email;
  reason = reason;
  status = status;
  attempt_count = attempts;
  last_error = error;
  raw_payload = raw;
  created_at = 0;
}

abbrev pub stored_outcome :
    ℕ → String → String → String → String → ℕ × Result (Unit {0}) → WebhookEvent
stored_outcome ws event_type email reason raw (attempts, ok _) =
    new_event ws event_type email reason "" applied attempts "" raw
stored_outcome ws event_type email reason raw (attempts, err e) =
    new_event ws event_type email reason "" dead_letter attempts (error_text e) raw

-- ProcessWebhookEvent once its texts are in order
unfoldable pub process_classified :
    MessageService → ℕ → String → String → String → String → String → Act WebhookEvent
process_classified s ws event_type email reason raw identity =
    if s.atomic_store
    then exec (λ now db.
      let key = webhook_identity_key s.digest ws event_type email reason raw identity in
      let (row, db') =
        process_event_atomic (new_event ws event_type email reason key processing 0 "" raw) now
          db in
      (ok row, db'))
    else (do
      tried ← apply_with_retry s ws event_type email reason
      insert_event s (stored_outcome ws event_type email reason raw tried))

-- ProcessWebhookEvent
unfoldable pub process_webhook_event :
    MessageService → ℕ → String → String → String → String → String → Act WebhookEvent
unfolding process_classified
process_webhook_event s ws event_type email reason raw identity =
    let trimmed = trim_space reason in
    let class = classify_bounce (normalize event_type) trimmed in
    process_classified s (default_workspace ws) class (trim_space email)
      (default_reason class trimmed) raw identity

abbrev pub or_unknown : String → String
or_unknown s = if str_eq s "" then "unknown" else s

-- RecordWebhookDeadLetter; `strings.TrimSpace(strings.ToLower(s))` here
unfoldable pub record_dead_letter :
    MessageService → ℕ → String → String → String → String → String → ℕ → Act WebhookEvent
unfolding insert_event
record_dead_letter s ws event_type email reason error raw attempts = insert_event s (
    new_event (default_workspace ws) (or_unknown (trim_space (to_lower event_type)))
      (trim_space (to_lower email)) (trim_space reason) "" dead_letter
      (if attempts == 0 then 1 else attempts) (trim_space error) raw)

pub data ReplayStatus : Type 0 where
  replay_failed replay_skipped replay_done : ReplayStatus

pub record ReplayOutcome : Type 0 where
  pub event_id : ℕ
  pub status : ReplayStatus
  pub attempt_count : ℕ
  pub error : String

pub record ReplayResult : Type 0 where
  pub workspace_id : ℕ
  pub requested : ℕ
  pub replayed : ℕ
  pub failed : ℕ
  pub skipped : ℕ
  pub replay_source : String
  pub outcomes : List ReplayOutcome

abbrev pub add_replay : ℕ → ReplayStatus → ℕ → String → ReplayResult → ReplayResult
add_replay id status attempts error out =
    let row : ReplayOutcome = record {
      event_id = id;
      status = status;
      attempt_count = attempts;
      error = error;
    } in
    record out { outcomes = out.outcomes ++ row ∷ [] }

unfoldable pub replay_not_done : ℕ → ℕ → String → ReplayResult → ReplayResult
replay_not_done id attempts error out = record (add_replay id replay_failed attempts error out) {
  failed = suc out.failed;
}

unfoldable pub replay_passed_over : ℕ → ℕ → String → ReplayResult → ReplayResult
replay_passed_over id attempts error out =
    record (add_replay id replay_skipped attempts error out) { skipped = suc out.skipped }

unfoldable pub replay_was_done : ℕ → ℕ → ReplayResult → ReplayResult
replay_was_done id attempts out = record (add_replay id replay_done attempts "" out) {
  replayed = suc out.replayed;
}

unfoldable pub update_event : ℕ → EventStatus → ℕ → String → Act (Unit {0})
update_event id status attempts error =
    exec (λ now db. (ok tt, update_replay_result id status attempts error now db))

abbrev pub after_replay : WebhookEvent → ReplayResult → ℕ × Result (Unit {0}) → Act ReplayResult
after_replay e out (attempts, ok _) = do
  update_event e.id replayed (e.attempt_count + attempts) ""
  pure (replay_was_done e.id (e.attempt_count + attempts) out)
after_replay e out (attempts, err x) = do
  update_event e.id dead_letter (e.attempt_count + attempts) ("replay failed: " +s error_text x)
  pure (replay_not_done e.id (e.attempt_count + attempts) ("replay failed: " +s error_text x) out)

-- one round of the loop of ReplayWebhookDeadLetters
unfoldable pub replay_one : MessageService → WebhookEvent → ReplayResult → Act ReplayResult
replay_one s e out =
    let email = trim_space (to_lower e.email) in
    if str_eq email ""
    then (do
      update_event e.id dead_letter (e.attempt_count + 1) missing_email
      pure (replay_not_done e.id (e.attempt_count + 1) missing_email out))
    else (do
      tried ←
          apply_with_retry s e.workspace_id (classify_bounce (normalize e.event_type) e.reason)
            email (trim_space e.reason)
      after_replay e out tried)

abbrev pub after_claimed : WebhookEvent → ReplayResult → Option WebhookEvent → ReplayResult
after_claimed e out none =
    replay_passed_over e.id e.attempt_count "event is no longer available for replay" out
after_claimed e out (some updated) =
    if is_replayed updated.status
    then replay_was_done e.id updated.attempt_count out
    else replay_not_done e.id updated.attempt_count updated.last_error out

-- one round of the loop of replayWebhookDeadLettersAtomic
unfoldable pub replay_one_atomic : ℕ → WebhookEvent → ReplayResult → Act ReplayResult
replay_one_atomic ws e out = do
  claimed ← exec (λ now db. let (o, db') = replay_event_atomic ws e.id db in (ok o, db'))
  pure (after_claimed e out claimed)

abbrev pub replay_round : MessageService → ℕ → WebhookEvent → ReplayResult → Act ReplayResult
replay_round s ws e out = if s.atomic_store then replay_one_atomic ws e out else replay_one s e out

-- the two loops
unfoldable pub replay_events :
    MessageService → ℕ → List WebhookEvent → ReplayResult → Act ReplayResult
replay_events s ws [] out = pure out
replay_events s ws (e ∷ es) out = do out' ← replay_round s ws e out; replay_events s ws es out'

abbrev pub no_replays : ℕ → String → ℕ → ReplayResult
no_replays ws source requested = record {
  workspace_id = ws;
  requested = requested;
  replayed = 0;
  failed = 0;
  skipped = 0;
  replay_source = source;
  outcomes = [];
}

abbrev pub replay_source_of : List ℕ → String
replay_source_of [] = "latest"
replay_source_of (_ ∷ _) = "ids"

abbrev pub dead_letters_for : ℕ → List ℕ → ℤ → Act (List WebhookEvent)
dead_letters_for ws [] limit =
    query (λ db. ok (list_dead_letters ws (ℤ.pos (clamp_limit 20 200 limit)) db))
dead_letters_for ws (id ∷ ids) limit = query (λ db. ok (list_dead_letters_by_id ws (id ∷ ids) db))

-- ReplayWebhookDeadLetters
unfoldable pub replay_dead_letters : MessageService → ℕ → List ℤ → ℤ → Act ReplayResult
replay_dead_letters s ws event_ids limit = do
  let ids = normalize_positive_ids event_ids
  events ← dead_letters_for (default_workspace ws) ids limit
  replay_events s (default_workspace ws) events
      (no_replays (default_workspace ws) (replay_source_of ids) (length events))
