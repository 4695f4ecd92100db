-- ===== src/Service/Retry/Laws.antt =====
-- The counters of RetryMessages.
use mathlib.Core.List.{append-nil, append_assoc}
use maild.Base.{
  ℕ, suc, ◌+◌, ◌≡◌, refl, ap, sym, ◌∙◌, ◌++◌, map, keep, List, [], ◌∷◌, String, arith, length,
  length-append, count_if,
}
use maild.Domain.{failed, same_status, Message}
use maild.Service.Policy.{default_workspace}
use maild.Store.Messages.{message_id}
use maild.Store.Webhooks.{clamp_limit}
use maild.World.{World, query}
use maild.World.Ends.{Post}
use maild.World.From.{after_query}
use maild.Store.Defs.{Db, Result, ok, err}
use maild.Base.Int.{ℤ, pos}
use mathlib.Core.Path.{subst}
use maild.World.Ends.{Yields, Ends-pure, Ends-if, Ends-bind, weaken}
use maild.Service.Defs.{MessageService}
use maild.Service.Helpers.{normalize_positive_ids}
use maild.Service.Retry.{
  outcome_failed, outcome_skipped, outcome_retried, RetryOutcome, RetryResult, retry_ids,
  retry_failed, retry_selected, retry_messages, list_messages, no_outcomes,
}
use maild.Service.Retry.Tallies.{
  of_kind, outcome_id, Tallies, Progress, retry_message-Next, retry_id-Next,
}

retry_ids-Progress :
    (s : MessageService) (ws : ℕ) (done : List ℕ) (asked : ℕ) (ids : List ℕ) (out : RetryResult)
    → Progress done asked out
    → Yields (Progress (done ++ ids) asked) (retry_ids s ws ids out)
unfolding retry_ids
retry_ids-Progress s ws done asked [] out p = rw append-nil (Ends-pure _ _ _ p)
retry_ids-Progress s ws done asked (id ∷ ids) out p =
    Ends-bind _ _ _ _ _ (retry_id-Next done asked out p s ws id) (λ out' p'.
      subst (λ l. Yields (Progress l asked) (retry_ids s ws ids out'))
        (append_assoc done (id ∷ []) ids)
        (retry_ids-Progress s ws (done ++ id ∷ []) asked ids out' p'))

asked_next :
    (done : List ℕ) (id : ℕ) (out : RetryResult)
    → Progress done (length done) out
    → Progress done (length (done ++ id ∷ [])) (record out { requested = suc out.requested })
asked_next done id out p = record {
  tallies = record {
    ids = p.tallies.ids;
    each_retried = p.tallies.each_retried;
    each_skipped = p.tallies.each_skipped;
    each_failed = p.tallies.each_failed;
  };
  requested = rw (length-append done (id ∷ [])) (omega (arith, p.requested));
}

-- the ids of the failed ones
unfoldable pub failed_ids : List Message → List ℕ
failed_ids ms = map message_id (keep (λ m. same_status m.status failed) ms)

abbrev Counted : List ℕ → RetryResult → Type 0
Counted done = Progress done (length done)

-- over the latest messages, `requested` counts the rounds too
retry_failed-Counted :
    (s : MessageService) (ws : ℕ) (done : List ℕ) (ms : List Message) (out : RetryResult)
    → Counted done out
    → Yields (Counted (done ++ failed_ids ms)) (retry_failed s ws ms out)
unfolding retry_failed failed_ids keep
retry_failed-Counted s ws done [] out p = rw append-nil (Ends-pure _ _ _ p)
retry_failed-Counted s ws done (m ∷ ms) out p =
    Ends-if _ _ (same_status m.status failed) _ _
      (λ h.
        Ends-bind _ _ _ _ _
          (retry_message-Next done _ (record out { requested = suc out.requested })
            (asked_next done m.id out p) s ws m)
          (λ out' p'.
            subst (λ l. Yields (Counted l) (retry_failed s ws ms out'))
              (append_assoc done (m.id ∷ []) (failed_ids ms) ∙ sym (rw h refl))
              (retry_failed-Counted s ws (done ++ m.id ∷ []) ms out' p')))
      (λ h. rw h (retry_failed-Counted s ws done ms out p))

-- the outcomes are of three kinds
kinds_sum :
    (os : List RetryOutcome)
    → length os
      ≡ count_if (of_kind outcome_retried) os
        + count_if (of_kind outcome_skipped) os
        + count_if (of_kind outcome_failed) os
unfolding count_if
kinds_sum [] = refl
kinds_sum (o ∷ os) = ground (arith, kinds_sum os)

-- the messages `wanted` have one outcome each, in that order, and are counted in `requested`; each
-- counter is the number of outcomes of its kind, and the counters add up to `requested`
pub record IsTallied (wanted : List ℕ) (out : RetryResult) : Type 0 where
  pub tallies : Tallies wanted out
  pub requested : out.requested ≡ length wanted
  pub sum : out.requested ≡ out.retried + out.skipped + out.failed

length-map_id : (os : List RetryOutcome) → length (map outcome_id os) ≡ length os
length-map_id [] = refl
length-map_id (o ∷ os) = omega (arith, length-map_id os)

Progress-IsTallied :
    (done : List ℕ) (out : RetryResult) → Progress done (length done) out → IsTallied done out
Progress-IsTallied done out p = record {
  tallies = p.tallies;
  requested = p.requested;
  sum = omega (
    arith,
    kinds_sum out.outcomes,
    p.requested,
    length-map_id out.outcomes,
    ap length p.tallies.ids,
    p.tallies.each_retried,
    p.tallies.each_skipped,
    p.tallies.each_failed,
  );
}

start-Progress : (ws k : ℕ) (source : String) → Progress [] k (no_outcomes ws source k)
unfolding count_if
start-Progress ws k source = record {
  tallies = record { ids = refl; each_retried = refl; each_skipped = refl; each_failed = refl };
  requested = refl;
}

-- the failed ones of the latest messages, as RetryMessages lists them
abbrev pub latest_failed : ℕ → ℤ → Db → List Message
latest_failed ws limit db = list_messages ws (pos (clamp_limit 20 200 limit)) 0 0 db

-- the messages that RetryMessages is to retry
abbrev pub wanted : ℕ → List ℕ → ℤ → Db → List ℕ
wanted ws [] limit db = failed_ids (latest_failed ws limit db)
wanted ws (id ∷ ids) limit db = id ∷ ids

retry_selected-IsTallied :
    (s : MessageService) (ws : ℕ) (ids : List ℕ) (limit : ℤ) (w : World)
    → Post
        (IsTallied (wanted ws ids limit w.state.db))
        (λ e. (ids ≡ []) × ((query (λ db. ok (latest_failed ws limit db)) w).0 ≡ err e))
        (retry_selected s ws ids limit w).0
unfolding retry_selected
retry_selected-IsTallied s ws [] limit w =
    after_query _ _ _ _ w
      (λ ms listed w' same.
        (weaken
            (λ out' t.
              subst (λ l. IsTallied (failed_ids l) out') (of_ok (sym listed))
                (Progress-IsTallied _ out' t))
            (λ e b. absurd b)
            (retry_failed-Counted s ws [] ms _ (start-Progress ws 0 "latest_failed"))).at
          w')
      (λ e h. (refl, h))
  where
    of_ok : {ms ms' : List Message} → Result.ok ms ≡ ok ms' → ms ≡ ms'
    of_ok h = cc h
retry_selected-IsTallied s ws (id ∷ ids) limit w =
    (weaken (λ out' t. Progress-IsTallied _ out' t) (λ e b. absurd b)
        (retry_ids-Progress s ws [] _ (id ∷ ids) _ (start-Progress ws _ "ids"))).at
      w

-- What RetryMessages returns has one outcome for each message it is to retry, in their order, counts
-- them in `requested`, and has counters that are the numbers of outcomes of each kind and add up to
-- `requested`. The messages to retry are the positive ids that were given, each once; where there
-- are none, the failed ones of the latest messages, by the tables at the start. It fails only
-- where no positive id was given, and with the error of the query for the latest messages.
pub retry_messages-IsTallied :
    (s : MessageService) (ws : ℕ) (ids : List ℤ) (limit : ℤ) (w : World)
    → Post
        (IsTallied (wanted (default_workspace ws) (normalize_positive_ids ids) limit w.state.db))
        (λ e.
          (normalize_positive_ids ids ≡ [])
          × ((query (λ db. ok (latest_failed (default_workspace ws) limit db)) w).0 ≡ err e))
        (retry_messages s ws ids limit w).0
unfolding retry_messages
retry_messages-IsTallied s ws ids limit w =
    retry_selected-IsTallied s (default_workspace ws) (normalize_positive_ids ids) limit w
