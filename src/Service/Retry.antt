-- ===== src/Service/Retry.antt =====
-- internal/service/message_service.go: RetryMessages and retryMessage. The `out` that the Go code
-- passes by pointer is a value that each step returns.
pub mod Tallies
pub mod Laws
use maild.Base.{
  ℕ, suc, Bool, true, false, not, ◌&&◌, List, [], ◌∷◌, ◌++◌, String, ltb, length, keep, take, ◌==◌,
  if◌then◌else◌,
}
use maild.Base.Int.{ℤ, pos}
use maild.Domain.{Status, queued, failed, same_status, Message}
use maild.Store.Defs.{Db, Result, ok, err}
use maild.Store.Messages.{get_message}
use maild.Store.Webhooks.{clamp_limit, in_window}
use maild.World.{Act, pure, handle, ◌>>=◌, ◌>>◌, ignore, query}
use maild.Service.Defs.{QueueKind, absent, MessageService, enqueue, meter}
use maild.Service.Helpers.{normalize_positive_ids}
use maild.Service.Policy.{default_workspace}
use maild.Service.Process.{set_status, transition}

-- MessageRetryOutcome.Status
pub data RetryStatus : Type 0 where
  outcome_failed outcome_skipped outcome_retried : RetryStatus

pub record RetryOutcome : Type 0 where
  pub message_id : ℕ
  pub status : RetryStatus
  pub error : String

pub record RetryResult : Type 0 where
  pub workspace_id : ℕ
  pub requested : ℕ
  pub retried : ℕ
  pub skipped : ℕ
  pub failed : ℕ
  pub replay_source : String
  pub outcomes : List RetryOutcome

abbrev pub add_outcome : ℕ → RetryStatus → String → RetryResult → RetryResult
add_outcome id status error out =
    let row : RetryOutcome = record { message_id = id; status = status; error = error } in
    record out { outcomes = out.outcomes ++ row ∷ [] }

unfoldable pub count_failed : ℕ → String → RetryResult → RetryResult
count_failed id error out = record (add_outcome id outcome_failed error out) {
  failed = suc out.failed;
}

unfoldable pub count_skipped : ℕ → String → RetryResult → RetryResult
count_skipped id error out = record (add_outcome id outcome_skipped error out) {
  skipped = suc out.skipped;
}

unfoldable pub count_retried : ℕ → RetryResult → RetryResult
count_retried id out = record (add_outcome id outcome_retried "" out) { retried = suc out.retried }

abbrev pub after_enqueue : Message → RetryResult → Result (Unit {0}) → Act RetryResult
after_enqueue m out (ok _) = do
  meter m.workspace_id m.id "message_retried" "{\"source\":\"manual_retry\"}"
  pure (count_retried m.id out)
after_enqueue m out (err _) = do
  ignore (set_status m.id failed)
  pure (count_failed m.id "queue enqueue failed" out)

abbrev pub publish : MessageService → QueueKind → Message → RetryResult → Act RetryResult
publish s absent m out = do
  ignore (set_status m.id failed)
  pure (count_failed m.id "queue unavailable" out)
publish s _ m out = handle (enqueue s m.id) (after_enqueue m out)

abbrev pub after_transition : MessageService → Message → RetryResult → Result Bool → Act RetryResult
after_transition s m out (err _) = pure (count_failed m.id "status transition failed" out)
after_transition s m out (ok false) = pure (count_skipped m.id "message no longer failed" out)
after_transition s m out (ok true) = publish s s.queue m out

-- retryMessage
unfoldable pub retry_message : MessageService → ℕ → Message → RetryResult → Act RetryResult
retry_message s ws m out =
    if not (m.workspace_id == ws)
    then pure (count_failed m.id "workspace mismatch" out)
    else if not (same_status m.status failed)
    then pure (count_skipped m.id "only failed messages can be retried" out)
    else handle (transition m.id failed queued) (after_transition s m out)

abbrev pub retry_loaded : MessageService → ℕ → ℕ → RetryResult → Result Message → Act RetryResult
retry_loaded s ws id out (ok m) = retry_message s ws m out
retry_loaded s ws id out (err _) = pure (count_failed id "message not found" out)

-- one round of the loop over the ids
unfoldable pub retry_id : MessageService → ℕ → ℕ → RetryResult → Act RetryResult
retry_id s ws id out = handle (query (get_message id)) (retry_loaded s ws id out)

unfoldable pub retry_ids : MessageService → ℕ → List ℕ → RetryResult → Act RetryResult
retry_ids s ws [] out = pure out
retry_ids s ws (id ∷ ids) out = do out' ← retry_id s ws id out; retry_ids s ws ids out'

-- the loop over the latest messages
unfoldable pub retry_failed : MessageService → ℕ → List Message → RetryResult → Act RetryResult
retry_failed s ws [] out = pure out
retry_failed s ws (m ∷ ms) out =
    if same_status m.status failed
    then (do
      out' ← retry_message s ws m (record out { requested = suc out.requested })
      retry_failed s ws ms out')
    else retry_failed s ws ms out

-- ORDER BY created_at DESC
unfoldable pub insert_newest : Message → List Message → List Message
insert_newest m [] = m ∷ []
insert_newest m (x ∷ xs) =
    if ltb m.created_at x.created_at then x ∷ insert_newest m xs else m ∷ x ∷ xs

unfoldable pub sort_newest : List Message → List Message
unfolding insert_newest
sort_newest [] = []
sort_newest (x ∷ xs) = insert_newest x (sort_newest xs)

-- Store.ListMessages
unfoldable pub list_messages : ℕ → ℤ → ℕ → ℕ → Db → List Message
unfolding sort_newest clamp_limit
list_messages ws limit start end db =
    take (clamp_limit 50 200 limit) (
      sort_newest
        (keep (λ m. m.workspace_id == ws && in_window start end m.created_at) db.messages))

abbrev pub no_outcomes : ℕ → String → ℕ → RetryResult
no_outcomes ws source requested = record {
  workspace_id = ws;
  requested = requested;
  retried = 0;
  skipped = 0;
  failed = 0;
  replay_source = source;
  outcomes = [];
}

-- the branches of RetryMessages on the ids that are left
unfoldable pub retry_selected : MessageService → ℕ → List ℕ → ℤ → Act RetryResult
retry_selected s ws [] limit = do
  messages ← query (λ db. ok (list_messages ws (pos (clamp_limit 20 200 limit)) 0 0 db))
  retry_failed s ws messages (no_outcomes ws "latest_failed" 0)
retry_selected s ws (id ∷ ids) limit =
    retry_ids s ws (id ∷ ids) (no_outcomes ws "ids" (suc (length ids)))

-- RetryMessages
unfoldable pub retry_messages : MessageService → ℕ → List ℤ → ℤ → Act RetryResult
unfolding retry_selected
retry_messages s ws ids limit =
    retry_selected s (default_workspace ws) (normalize_positive_ids ids) limit
