-- ===== src/Service/Recovery.antt =====
-- internal/service/message_service.go, RecoverQueue, with the calls of
-- internal/worker/message_worker.go.
pub mod Claimed
pub mod Requeue
pub mod Laws
use maild.Base.{ℕ, suc, ◌-◌, ◌*◌, List, [], ◌∷◌, ◌==◌, if◌then◌else◌}
use maild.Base.Int.{ℤ, pos}
use maild.Store.Defs.{queue_unavailable, Result, ok, err}
use maild.Store.Messages.{mark_stale_sending_unknown, claim_queued_messages_for_recovery}
use maild.World.{Act, pure, handle, ◌>>=◌, ◌>>◌, exec, clock}
use maild.Service.Defs.{QueueKind, absent, MessageService, positive_or, minute, enqueue}

-- MessageRecoveryResult, and the error beside it
pub record RecoveryResult : Type 0 where
  pub requeued : ℕ
  pub marked_unknown : ℕ

abbrev pub second : ℕ
second = 1000000000

-- the loop over the claimed ids; the result so far comes back beside the error, if there is one
unfoldable pub requeue_ids :
    MessageService → List ℕ → RecoveryResult → Act (RecoveryResult × Result (Unit {0}))
requeue_ids s [] out = pure (out, ok tt)
requeue_ids s (id ∷ ids) out = handle (enqueue s id) (elim [
  | ok _ ↦ requeue_ids s ids (record out { requeued = suc out.requeued })
  | err e ↦ pure (out, err e)
])

abbrev pub with_queue :
    MessageService → QueueKind → List ℕ → RecoveryResult → Act (RecoveryResult × Result (Unit {0}))
with_queue s absent (id ∷ ids) out = pure (out, err queue_unavailable)
with_queue s kind ids out = requeue_ids s ids out

abbrev pub after_claim :
    MessageService → RecoveryResult → Result (List ℕ) → Act (RecoveryResult × Result (Unit {0}))
after_claim s out (ok ids) = with_queue s s.queue ids out
after_claim s out (err e) = pure (out, err e)

abbrev pub after_mark : MessageService → ℕ → ℕ → Result ℕ → Act (RecoveryResult × Result (Unit {0}))
after_mark s queued_grace limit (err e) = pure (record { requeued = 0; marked_unknown = 0 }, err e)
after_mark s queued_grace limit (ok marked) = do
  now ← clock
  handle
      (exec (λ t db.
        let (ids, db') = claim_queued_messages_for_recovery (now - queued_grace) limit t db in
        (ok ids, db')))
      (after_claim s (record { requeued = 0; marked_unknown = marked }))

-- RecoverQueue
unfoldable pub recover_queue : MessageService → ℤ → ℤ → ℤ → Act (RecoveryResult × Result (Unit {0}))
unfolding positive_or
recover_queue s queued_grace sending_lease limit =
    if s.recovery_store
    then (do
      now ← clock
      handle
          (exec (λ t db.
            let (n, db') =
              mark_stale_sending_unknown (now - positive_or (15 * minute) sending_lease) t db in
            (ok n, db')))
          (after_mark s (positive_or (30 * second) queued_grace) (positive_or 100 limit)))
    else pure (record { requeued = 0; marked_unknown = 0 }, ok tt)

-- recoverMessages of the worker, without the log
unfoldable pub recover_messages : MessageService → Act (RecoveryResult × Result (Unit {0}))
unfolding recover_queue
recover_messages s = recover_queue s (pos (30 * second)) (pos (15 * minute)) (pos 100)
