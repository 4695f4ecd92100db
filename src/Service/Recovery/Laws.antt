-- ===== src/Service/Recovery/Laws.antt =====
-- What RecoverQueue does to the queue.
use mathlib.Core.Path.{subst}
use maild.Base.{
  ℕ, ◌-◌, ◌≤◌, ◌≡◌, refl, ap, sym, ◌∙◌, ◌⊎◌, inl, inr, Bool, true, false, not, List, [], ◌∷◌, ◌++◌,
  arith, length, any, any-append, length-append, ◌*◌, if◌then◌else◌,
}
use maild.Base.Int.{ℤ}
use maild.Store.Defs.{Db, db_error, Result, ok, err}
use maild.Store.Messages.{claim_queued_messages_for_recovery, mark_stale_sending_unknown}
use maild.World.{State, World, Act, pure, handle, ◌>>=◌, clock, exec}
use maild.World.From.{exec_ends}
use maild.Service.Defs.{minute, QueueKind, absent, plain, scheduling, MessageService, positive_or}
use maild.Service.Recovery.{
  RecoveryResult, requeue_ids, with_queue, after_claim, after_mark, recover_queue,
}
use maild.Service.Recovery.Claimed.{
  queued_in, QueuedThere, claimed_bound, claimed_queued, mark-QueuedThere,
}
use maild.Service.Recovery.Requeue.{
  CountedBack, Recovered, Requeued, nothing_put, requeue_ids-Requeued,
}

-- at most `most` ids were put at the end of the ready list, each of a message that was queued, and
-- they were counted
pub record PutBack (most : ℕ) (st : State) (z : Recovered) : Type 0 where
  pub put : List ℕ
  pub queue : z.1.state.queue ≡ record st.queue { ready = st.queue.ready ++ put }
  pub bounded : length put ≤ most
  pub queued_before : any (λ id. not (queued_in st.db.messages id)) put ≡ false
  pub counted : CountedBack 0 (length put) z.0

module _ (s : MessageService) (most : ℕ) (st : State) where
  nothing-PutBack :
      (out : RecoveryResult) (r : Result (Unit {0})) (w : World)
      → out.requeued ≡ 0
      → w.state.queue ≡ st.queue
      → PutBack most st (ok (out, r), w)
  unfolding any
  nothing-PutBack out r w none_yet same = record {
    put = [];
    queue = same ∙ nothing_put st.queue;
    bounded = omega arith;
    queued_before = refl;
    counted = of_result r;
  }
    where
      of_result : (r' : Result (Unit {0})) → CountedBack 0 0 (ok (out, r'))
      of_result (ok _) = none_yet
      of_result (err _) = inl none_yet

  if-PutBack :
      (b : Bool) (m n : Act (RecoveryResult × Result (Unit {0}))) (w : World)
      → PutBack most st (m w)
      → PutBack most st (n w)
      → PutBack most st ((if b then m else n) w)
  if-PutBack true m n w h k = h
  if-PutBack false m n w h k = k

  Requeued-PutBack :
      (ids : List ℕ) (z : Recovered)
      → length ids ≤ most
      → any (λ id. not (queued_in st.db.messages id)) ids ≡ false
      → Requeued ids st.queue 0 z
      → PutBack most st z
  Requeued-PutBack ids z short all_queued r =
      let total = ap length (sym r.split) ∙ length-append r.put r.rest in
      let both =
        sym (any-append (λ id. not (queued_in st.db.messages id)) r.put r.rest)
        ∙ ap (any (λ id. not (queued_in st.db.messages id))) r.split
        ∙ all_queued in
      record {
        put = r.put;
        queue = r.queue;
        bounded = omega (arith, total, short);
        queued_before = ground (arith, both);
        counted = r.counted;
      }

  with_queue-PutBack :
      (kind : QueueKind) (ids : List ℕ) (out : RecoveryResult) (w : World)
      → out.requeued ≡ 0
      → w.state.queue ≡ st.queue
      → length ids ≤ most
      → any (λ id. not (queued_in st.db.messages id)) ids ≡ false
      → PutBack most st (with_queue s kind ids out w)
  unfolding pure requeue_ids
  with_queue-PutBack kind ids out w none_yet same short all_queued =
      of_kind kind ids short all_queued
    where
      to_queue :
          (ids' : List ℕ)
          → length ids' ≤ most
          → any (λ id. not (queued_in st.db.messages id)) ids' ≡ false
          → PutBack most st (requeue_ids s ids' out w)
      to_queue ids' short' all_queued' = Requeued-PutBack ids' _ short' all_queued' (
          subst (λ k. Requeued ids' st.queue k (requeue_ids s ids' out w)) none_yet
            (subst (λ q. Requeued ids' q out.requeued (requeue_ids s ids' out w)) same
              (requeue_ids-Requeued s ids' out w)))

      of_kind :
          (kind' : QueueKind) (ids' : List ℕ)
          → length ids' ≤ most
          → any (λ id. not (queued_in st.db.messages id)) ids' ≡ false
          → PutBack most st (with_queue s kind' ids' out w)
      of_kind absent [] short' all_queued' = nothing-PutBack out (ok tt) w none_yet same
      of_kind absent (id ∷ ids') short' all_queued' = nothing-PutBack out _ w none_yet same
      of_kind plain ids' short' all_queued' = to_queue ids' short' all_queued'
      of_kind scheduling ids' short' all_queued' = to_queue ids' short' all_queued'

  abbrev claim : ℕ → World → ℕ → Db → Result (List ℕ) × Db
  claim grace w t db =
      let (ids, db') = claim_queued_messages_for_recovery (w.state.now - grace) most t db in
      (ok ids, db')

  after_mark-PutBack :
      (grace : ℕ) (r : Result ℕ) (w : World)
      → w.state.queue ≡ st.queue
      → QueuedThere w.state.db.messages st.db.messages
      → PutBack most st (after_mark s grace most r w)
  unfolding pure ◌>>=◌ handle clock
  after_mark-PutBack grace (err e) w same there = nothing-PutBack _ (err e) w refl same
  after_mark-PutBack grace (ok marked) w same there =
      by_result (exec (claim grace w) w).0 (exec (claim grace w) w).1
        (exec_ends (claim grace w) w).0 (exec_ends (claim grace w) w).2
    where
      by_result :
          (r : Result (List ℕ)) (w' : World)
          → w'.state.queue ≡ w.state.queue
          → (r ≡ (claim grace w w.state.now w.state.db).0) ⊎ (r ≡ err db_error)
          → PutBack most st (after_claim s (record { requeued = 0; marked_unknown = marked }) r w')
      by_result (err e) w' kept answer = nothing-PutBack _ (err e) w' refl (kept ∙ same)
      by_result (ok ids) w' kept (inr answer) = absurd cc
      by_result (ok ids) w' kept (inl answer) =
          let claimed : ids
              ≡ (claim_queued_messages_for_recovery (w.state.now - grace) most w.state.now
                  w.state.db).0 =
            cc answer in
          with_queue-PutBack s.queue ids _ w' refl (kept ∙ same)
            (rw claimed (claimed_bound (w.state.now - grace) most w.state.now w.state.db))
            (rw claimed (
              claimed_queued (w.state.now - grace) most w.state.now w.state.db st.db.messages
                there))

abbrev mark : ℤ → World → ℕ → Db → Result ℕ × Db
mark sending_lease w t db =
    let (n, db') =
      mark_stale_sending_unknown (w.state.now - positive_or (15 * minute) sending_lease) t db in
    (ok n, db')

-- RecoverQueue comes back with a result and an error value whatever fails. Of the queue it changes
-- the end of the ready list only, where it puts at most `limit` ids, 100 if the limit is not
-- positive, each of a message that was queued at the start; and it counts in `requeued` every id
-- that it put there, or, where it comes back with an error, all of them or all but one.
pub recover_queue-PutBack :
    (s : MessageService) (queued_grace sending_lease limit : ℤ) (w : World)
    → PutBack (positive_or 100 limit) w.state (recover_queue s queued_grace sending_lease limit w)
unfolding recover_queue pure ◌>>=◌ handle clock mark_stale_sending_unknown
recover_queue-PutBack s queued_grace sending_lease limit w =
    if-PutBack s (positive_or 100 limit) w.state s.recovery_store _ _ w
      (let ends = exec_ends (mark sending_lease w) w in
        after_mark-PutBack s (positive_or 100 limit) w.state _ (exec (mark sending_lease w) w).0
          (exec (mark sending_lease w) w).1 ends.0 (marked ends.1))
      (nothing-PutBack s (positive_or 100 limit) w.state _ (ok tt) w refl refl)
  where
    marked :
        {d : Db}
        → (d ≡ w.state.db) ⊎ (d ≡ (mark sending_lease w w.state.now w.state.db).1)
        → QueuedThere d.messages w.state.db.messages
    marked (inl same) id h = subst (λ (d' : Db). queued_in d'.messages id ≡ true) same h
    marked (inr changed) id h =
        mark-QueuedThere _ w.state.now w.state.db.messages id
          (subst (λ (d' : Db). queued_in d'.messages id ≡ true) changed h)
