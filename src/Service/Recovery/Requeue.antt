-- ===== src/Service/Recovery/Requeue.antt =====
-- internal/service/message_service.go: the loop of RecoverQueue over the claimed ids.
use mathlib.Core.List.{append-nil, append_assoc}
use maild.Base.{
  ℕ, suc, ◌+◌, ◌≡◌, refl, ap, sym, ◌∙◌, ◌⊎◌, inl, inr, List, [], ◌∷◌, ◌++◌, arith, length,
}
use maild.Queue
use maild.Queue.{RedisQueue}
use maild.Store.Defs.{redis_error, Result, ok, err}
use maild.World.{
  Fault, fine, refused, lost, World, Act, pure, raise, handle, redis, attempt, next_outcome,
}
use maild.Service.Defs.{QueueKind, absent, plain, scheduling, MessageService, enqueue_on, enqueue}
use maild.Service.Recovery.{RecoveryResult, requeue_ids}

-- what was counted, where `n` ids were put back after `k`: each of them, or, beside the error of a
-- call whose answer was lost, all but the last
abbrev pub CountedBack : ℕ → ℕ → Result (RecoveryResult × Result (Unit {0})) → Type 0
CountedBack k n (ok (out, ok _)) = out.requeued ≡ k + n
CountedBack k n (ok (out, err _)) = (out.requeued ≡ k + n) ⊎ (suc out.requeued ≡ k + n)
CountedBack k n (err _) = ⊥

abbrev pub Recovered : Type 0
Recovered = Result (RecoveryResult × Result (Unit {0})) × World

-- the first ones of the ids were put at the end of the ready list, in their order, and counted
pub record Requeued (ids : List ℕ) (q : RedisQueue) (k : ℕ) (z : Recovered) : Type 0 where
  pub put : List ℕ
  pub rest : List ℕ
  pub split : put ++ rest ≡ ids
  pub queue : z.1.state.queue ≡ record q { ready = q.ready ++ put }
  pub counted : CountedBack k (length put) z.0

pub nothing_put : (q : RedisQueue) → q ≡ record q { ready = q.ready ++ [] }
nothing_put q = λ i. record q { ready = sym (append-nil q.ready) i }

-- a call of the queue that fails may have had its effect
abbrev EnqueueEnds : ℕ → RedisQueue → Result (Unit {0}) × World → Type 0
EnqueueEnds id q (ok _, w) = w.state.queue ≡ Queue.enqueue id q
EnqueueEnds id q (err _, w) = (w.state.queue ≡ q) ⊎ (w.state.queue ≡ Queue.enqueue id q)

enqueue_ends :
    (kind : QueueKind) (id : ℕ) (w : World) → EnqueueEnds id w.state.queue (enqueue_on kind id w)
unfolding redis attempt raise
enqueue_ends kind id w = of_kind kind
  where
    by_fault :
        (fs : List Fault)
        → EnqueueEnds id w.state.queue (
            next_outcome redis_error fs
              (ok tt, record w.state { queue = Queue.enqueue id w.state.queue })
              w)
    by_fault [] = refl
    by_fault (fine ∷ fs) = refl
    by_fault (refused ∷ fs) = inl refl
    by_fault (lost ∷ fs) = inr refl

    of_kind : (kind' : QueueKind) → EnqueueEnds id w.state.queue (enqueue_on kind' id w)
    of_kind absent = inl refl
    of_kind plain = by_fault w.faults
    of_kind scheduling = by_fault w.faults

put_next :
    (q : RedisQueue) (id : ℕ) (put : List ℕ)
    → record (Queue.enqueue id q) { ready = (Queue.enqueue id q).ready ++ put }
      ≡ record q { ready = q.ready ++ id ∷ put }
unfolding Queue.enqueue
put_next q id put = λ i. record q { ready = append_assoc q.ready (id ∷ []) put i }

one_more :
    (k n : ℕ) (r : Result (RecoveryResult × Result (Unit {0})))
    → CountedBack (suc k) n r
    → CountedBack k (suc n) r
one_more k n (ok (out, ok _)) c = omega (arith, c)
one_more k n (ok (out, err _)) (inl c) = inl (omega (arith, c))
one_more k n (ok (out, err _)) (inr c) = inr (omega (arith, c))
one_more k n (err _) c = absurd c

pub requeue_ids-Requeued :
    (s : MessageService) (ids : List ℕ) (out : RecoveryResult) (w : World)
    → Requeued ids w.state.queue out.requeued (requeue_ids s ids out w)
unfolding requeue_ids pure handle enqueue Queue.enqueue
requeue_ids-Requeued s [] out w = record {
  put = [];
  rest = [];
  split = refl;
  queue = nothing_put w.state.queue;
  counted = omega arith;
}
requeue_ids-Requeued s (id ∷ ids) out w =
    by_result (enqueue_on s.queue id w).0 (enqueue_on s.queue id w).1 (enqueue_ends s.queue id w)
      (requeue_ids-Requeued s ids (record out { requeued = suc out.requeued }))
  where
    by_result :
        (r : Result (Unit {0})) (w' : World)
        → EnqueueEnds id w.state.queue (r, w')
        → ((w'' : World)
            → Requeued ids w''.state.queue
                (suc out.requeued)
                (requeue_ids s ids (record out { requeued = suc out.requeued }) w''))
        → Requeued (id ∷ ids) w.state.queue out.requeued (
            (elim r as (λ _. Act (RecoveryResult × Result (Unit {0}))) [
              | ok _ ↦ requeue_ids s ids (record out { requeued = suc out.requeued })
              | err e ↦ pure (out, err e)
            ])
              w')
    by_result (ok _) w' h after =
        let later = after w' in
        record {
          put = id ∷ later.put;
          rest = later.rest;
          split = ap {B = List ℕ} (λ l. id ∷ l) later.split;
          queue =
              later.queue
              ∙ (λ i. record (h i) { ready = (h i).ready ++ later.put })
              ∙ put_next w.state.queue id later.put;
          counted = one_more _ _ _ later.counted;
        }
    by_result (err e) w' (inl h) after = record {
      put = [];
      rest = id ∷ ids;
      split = refl;
      queue = h ∙ nothing_put w.state.queue;
      counted = inl (omega arith);
    }
    by_result (err e) w' (inr h) after = record {
      put = id ∷ [];
      rest = ids;
      split = refl;
      queue = h;
      counted = inr (omega arith);
    }
