-- ===== src/Service/Retry/Tallies.antt =====
-- internal/service/message_service.go: what one round of RetryMessages adds to its counters.
use mathlib.Core.List.{map-append}
use maild.Base.{
  ℕ, ◌≡◌, refl, ◌∙◌, ◌++◌, map, find, find_holds, ==_iff, Option, none, some, Bool, true, false,
  not, List, [], ◌∷◌, String, arith, ◌==◌, count_if, count_if-append,
}
use maild.Domain.{failed, same_status, Message}
use maild.Store.Messages.{has_id, get_message}
use maild.World.Ends.{Post, Ends-handle-query}
use maild.Store.Defs.{Db, message_not_found, Result, ok, err}
use mathlib.Core.Path.{subst}
use maild.World.{Act, pure}
use maild.World.Ends.{Yields, Ends-pure, Ends-if, Ends-ignore, Ends-handle, Ends-bind}
use maild.Service.Defs.{QueueKind, absent, MessageService, meter}
use maild.Service.Retry.{
  RetryStatus, outcome_failed, outcome_skipped, outcome_retried, RetryOutcome, RetryResult,
  count_failed, count_skipped, count_retried, after_enqueue, publish, after_transition,
  retry_message, retry_loaded, retry_id,
}

-- the outcomes of one kind
abbrev pub of_kind : RetryStatus → RetryOutcome → Bool
of_kind outcome_failed o = elim o.status [ outcome_failed ↦ true | _ ↦ false ]
of_kind outcome_skipped o = elim o.status [ outcome_skipped ↦ true | _ ↦ false ]
of_kind outcome_retried o = elim o.status [ outcome_retried ↦ true | _ ↦ false ]

abbrev pub outcome_id : RetryOutcome → ℕ
outcome_id o = o.message_id

-- the messages `done` have one outcome each, and each counter is the number of outcomes of its kind
pub record Tallies (done : List ℕ) (out : RetryResult) : Type 0 where
  pub ids : map outcome_id out.outcomes ≡ done
  pub each_retried : count_if (of_kind outcome_retried) out.outcomes ≡ out.retried
  pub each_skipped : count_if (of_kind outcome_skipped) out.outcomes ≡ out.skipped
  pub each_failed : count_if (of_kind outcome_failed) out.outcomes ≡ out.failed

next_id :
    {done : List ℕ} (id : ℕ) (out : RetryResult)
    → map outcome_id out.outcomes ≡ done
    → (o : RetryOutcome) → o.message_id ≡ id
    → map outcome_id (out.outcomes ++ o ∷ []) ≡ done ++ id ∷ []
next_id id out h o e = map-append outcome_id out.outcomes (o ∷ []) ∙ (λ i. h i ++ e i ∷ [])

failed-Tallies :
    (done : List ℕ) (id : ℕ) (error : String) (out : RetryResult)
    → Tallies done out
    → Tallies (done ++ id ∷ []) (count_failed id error out)
unfolding count_failed count_if
failed-Tallies done id error out t = record {
  ids = next_id id out t.ids _ refl;
  each_retried =
      rw (count_if-append (of_kind outcome_retried) out.outcomes _) (omega (arith, t.each_retried));
  each_skipped =
      rw (count_if-append (of_kind outcome_skipped) out.outcomes _) (omega (arith, t.each_skipped));
  each_failed =
      rw (count_if-append (of_kind outcome_failed) out.outcomes _) (omega (arith, t.each_failed));
}

skipped-Tallies :
    (done : List ℕ) (id : ℕ) (error : String) (out : RetryResult)
    → Tallies done out
    → Tallies (done ++ id ∷ []) (count_skipped id error out)
unfolding count_skipped count_if
skipped-Tallies done id error out t = record {
  ids = next_id id out t.ids _ refl;
  each_retried =
      rw (count_if-append (of_kind outcome_retried) out.outcomes _) (omega (arith, t.each_retried));
  each_skipped =
      rw (count_if-append (of_kind outcome_skipped) out.outcomes _) (omega (arith, t.each_skipped));
  each_failed =
      rw (count_if-append (of_kind outcome_failed) out.outcomes _) (omega (arith, t.each_failed));
}

retried-Tallies :
    (done : List ℕ) (id : ℕ) (out : RetryResult)
    → Tallies done out
    → Tallies (done ++ id ∷ []) (count_retried id out)
unfolding count_retried count_if
retried-Tallies done id out t = record {
  ids = next_id id out t.ids _ refl;
  each_retried =
      rw (count_if-append (of_kind outcome_retried) out.outcomes _) (omega (arith, t.each_retried));
  each_skipped =
      rw (count_if-append (of_kind outcome_skipped) out.outcomes _) (omega (arith, t.each_skipped));
  each_failed =
      rw (count_if-append (of_kind outcome_failed) out.outcomes _) (omega (arith, t.each_failed));
}

-- the row that a query by its id gives has the id
get_message-id :
    (id : ℕ) (db : Db) → Post (λ (m : Message). m.id ≡ id) (λ _. Unit {0}) (get_message id db)
unfolding get_message
get_message-id id db = of_row (find (has_id id) db.messages) refl
  where
    of_row :
        (o : Option Message)
        → find (has_id id) db.messages ≡ o
        → Post
            (λ (m : Message). m.id ≡ id)
            (λ _. Unit {0})
            (elim o [ some m ↦ ok m | none ↦ err message_not_found ])
    of_row none h = tt
    of_row (some m) h = (==_iff m.id id).0 (find_holds (has_id id) db.messages h)

-- the tallies of `done` are right, and `requested` is as it was set
pub record Progress (done : List ℕ) (asked : ℕ) (out : RetryResult) : Type 0 where
  pub tallies : Tallies done out
  pub requested : out.requested ≡ asked

module _ (done : List ℕ) (asked : ℕ) (out : RetryResult) (p : Progress done asked out) where
  open p use {tallies, requested}

  abbrev Next : ℕ → Act RetryResult → Type 0
  Next id = Yields (Progress (done ++ id ∷ []) asked)

  failed-Next : (id : ℕ) (error : String) → Next id (pure (count_failed id error out))
  failed-Next id error = Ends-pure _ _ _ (record {
    tallies = failed-Tallies done id error out tallies;
    requested = unfold count_failed in requested;
  })

  skipped-Next : (id : ℕ) (error : String) → Next id (pure (count_skipped id error out))
  skipped-Next id error = Ends-pure _ _ _ (record {
    tallies = skipped-Tallies done id error out tallies;
    requested = unfold count_skipped in requested;
  })

  retried-Next : (id : ℕ) → Next id (pure (count_retried id out))
  retried-Next id = Ends-pure _ _ _ (record {
    tallies = retried-Tallies done id out tallies;
    requested = unfold count_retried in requested;
  })

  after_enqueue-Next : (m : Message) (r : Result (Unit {0})) → Next m.id (after_enqueue m out r)
  unfolding meter
  after_enqueue-Next m (ok _) = Ends-bind _ _ _ _ _ (Ends-ignore _ _) (λ _ _. retried-Next m.id)
  after_enqueue-Next m (err _) = Ends-bind _ _ _ _ _ (Ends-ignore _ _) (λ _ _. failed-Next m.id _)

  publish-Next : (s : MessageService) (k : QueueKind) (m : Message) → Next m.id (publish s k m out)
  publish-Next s absent m = Ends-bind _ _ _ _ _ (Ends-ignore _ _) (λ _ _. failed-Next m.id _)
  publish-Next s _ m = Ends-handle _ _ _ _ (after_enqueue-Next m)

  after_transition-Next :
      (s : MessageService) (m : Message) (r : Result Bool) → Next m.id (after_transition s m out r)
  after_transition-Next s m (err _) = failed-Next m.id _
  after_transition-Next s m (ok false) = skipped-Next m.id _
  after_transition-Next s m (ok true) = publish-Next s s.queue m

  pub retry_message-Next :
      (s : MessageService) (ws : ℕ) (m : Message) → Next m.id (retry_message s ws m out)
  unfolding retry_message
  retry_message-Next s ws m =
      Ends-if _ _ (not (m.workspace_id == ws)) _ _ (λ _. failed-Next m.id _)
        (λ _.
          Ends-if _ _ (not (same_status m.status failed)) _ _ (λ _. skipped-Next m.id _)
            (λ _. Ends-handle _ _ _ _ (after_transition-Next s m)))

  retry_loaded-Next :
      (s : MessageService) (ws id : ℕ) (r : Result Message)
      → Post (λ (m : Message). m.id ≡ id) (λ _. Unit {0}) r
      → Next id (retry_loaded s ws id out r)
  retry_loaded-Next s ws id (ok m) h =
      subst (λ k. Next k (retry_message s ws m out)) h (retry_message-Next s ws m)
  retry_loaded-Next s ws id (err _) h = failed-Next id _

  pub retry_id-Next : (s : MessageService) (ws id : ℕ) → Next id (retry_id s ws id out)
  unfolding retry_id
  retry_id-Next s ws id =
      Ends-handle-query _ _ _ _ _ (get_message-id id) (retry_loaded-Next s ws id)
