-- ===== src/Service/Events/Laws.antt =====
-- The counters of ReplayWebhookDeadLetters.
use mathlib.Core.List.{append-nil, append_assoc, map-append}
use maild.Store.Webhooks.{clamp_limit, list_dead_letters, list_dead_letters_by_id}
use maild.World.Ends.{Post}
use maild.World.{State, World, query, ◌>>=◌}
use maild.World.From.{EndsFrom, From-query, From-Ends}
use maild.Base.{
  map, ◌++◌, ◌∙◌, ℕ, ◌+◌, ◌≡◌, refl, sym, Bool, true, false, List, [], ◌∷◌, String, arith, length,
  length-append, Option, none, some, if◌then◌else◌, str_eq, count_if, count_if-append,
}
use mathlib.Core.Path.{subst}
use maild.Base.Int.{ℤ, pos}
use maild.Text.{trim_space, to_lower}
use maild.Domain.{WebhookEvent, is_replayed}
use maild.Store.Defs.{Db, Result, ok, err}
use maild.World.{Act}
use maild.World.Ends.{Ends, Ends-pure, Ends-if, Ends-any, Ends-bind}
use maild.Service.Defs.{MessageService}
use maild.Service.Policy.{default_workspace}
use maild.Service.Helpers.{normalize_positive_ids}
use maild.Service.Events.{
  ReplayStatus, replay_failed, replay_skipped, replay_done, ReplayOutcome, ReplayResult,
  replay_not_done, replay_passed_over, replay_was_done, after_replay, replay_one, after_claimed,
  replay_one_atomic, replay_round, replay_events, no_replays, dead_letters_for, replay_source_of,
  replay_dead_letters,
}

-- the outcomes of one kind
abbrev pub of_kind : ReplayStatus → ReplayOutcome → Bool
of_kind replay_failed o = elim o.status [ replay_failed ↦ true | _ ↦ false ]
of_kind replay_skipped o = elim o.status [ replay_skipped ↦ true | _ ↦ false ]
of_kind replay_done o = elim o.status [ replay_done ↦ true | _ ↦ false ]

abbrev pub outcome_id : ReplayOutcome → ℕ
outcome_id o = o.event_id

-- the events `done` have one outcome each, in that order; each counter is the number of outcomes of
-- its kind, and the counters add up to the number of events
pub record Tallies (done : List ℕ) (asked : ℕ) (out : ReplayResult) : Type 0 where
  pub ids : map outcome_id out.outcomes ≡ done
  pub requested : out.requested ≡ asked
  pub each_replayed : count_if (of_kind replay_done) out.outcomes ≡ out.replayed
  pub each_skipped : count_if (of_kind replay_skipped) out.outcomes ≡ out.skipped
  pub each_failed : count_if (of_kind replay_failed) out.outcomes ≡ out.failed
  pub sum : length done ≡ out.replayed + out.skipped + out.failed

next_id :
    {done : List ℕ} (id : ℕ) (out : ReplayResult)
    → map outcome_id out.outcomes ≡ done
    → (o : ReplayOutcome) → o.event_id ≡ id
    → map outcome_id (out.outcomes ++ o ∷ []) ≡ done ++ id ∷ []
next_id id out h o e = map-append outcome_id out.outcomes (o ∷ []) ∙ (λ i. h i ++ e i ∷ [])

module _ (done : List ℕ) (asked : ℕ) (out : ReplayResult) (t : Tallies done asked out) where
  not_done_next :
      (id attempts : ℕ) (error : String)
      → Tallies (done ++ id ∷ []) asked (replay_not_done id attempts error out)
  unfolding replay_not_done count_if
  not_done_next id attempts error = record {
    ids = next_id id out t.ids _ refl;
    requested = t.requested;
    each_replayed =
        rw (count_if-append (of_kind replay_done) out.outcomes _) (omega (arith, t.each_replayed));
    each_skipped =
        rw (count_if-append (of_kind replay_skipped) out.outcomes _)
          (omega (arith, t.each_skipped));
    each_failed =
        rw (count_if-append (of_kind replay_failed) out.outcomes _) (omega (arith, t.each_failed));
    sum = rw (length-append done (id ∷ [])) (omega (arith, t.sum));
  }

  passed_over_next :
      (id attempts : ℕ) (error : String)
      → Tallies (done ++ id ∷ []) asked (replay_passed_over id attempts error out)
  unfolding replay_passed_over count_if
  passed_over_next id attempts error = record {
    ids = next_id id out t.ids _ refl;
    requested = t.requested;
    each_replayed =
        rw (count_if-append (of_kind replay_done) out.outcomes _) (omega (arith, t.each_replayed));
    each_skipped =
        rw (count_if-append (of_kind replay_skipped) out.outcomes _)
          (omega (arith, t.each_skipped));
    each_failed =
        rw (count_if-append (of_kind replay_failed) out.outcomes _) (omega (arith, t.each_failed));
    sum = rw (length-append done (id ∷ [])) (omega (arith, t.sum));
  }

  was_done_next :
      (id attempts : ℕ) → Tallies (done ++ id ∷ []) asked (replay_was_done id attempts out)
  unfolding replay_was_done count_if
  was_done_next id attempts = record {
    ids = next_id id out t.ids _ refl;
    requested = t.requested;
    each_replayed =
        rw (count_if-append (of_kind replay_done) out.outcomes _) (omega (arith, t.each_replayed));
    each_skipped =
        rw (count_if-append (of_kind replay_skipped) out.outcomes _)
          (omega (arith, t.each_skipped));
    each_failed =
        rw (count_if-append (of_kind replay_failed) out.outcomes _) (omega (arith, t.each_failed));
    sum = rw (length-append done (id ∷ [])) (omega (arith, t.sum));
  }

  -- the round ends well, or with the error of a call
  abbrev Next : ℕ → Act ReplayResult → Type 0
  Next id = Ends (Tallies (done ++ id ∷ []) asked) (λ _. Unit {0})

  any_end : {A : Type 0} (m : Act A) → Ends (λ _. Unit {0}) (λ _. Unit {0}) m
  any_end m = Ends-any _ _ m (λ _. tt) (λ _. tt)

  after_replay-Next :
      (e : WebhookEvent) (tried : ℕ × Result (Unit {0})) → Next e.id (after_replay e out tried)
  after_replay-Next e (attempts, ok _) =
      Ends-bind _ _ _ _ _ (any_end _) (λ _ _. Ends-pure _ _ _ (was_done_next _ _))
  after_replay-Next e (attempts, err x) =
      Ends-bind _ _ _ _ _ (any_end _) (λ _ _. Ends-pure _ _ _ (not_done_next _ _ _))

  replay_one-Next : (s : MessageService) (e : WebhookEvent) → Next e.id (replay_one s e out)
  unfolding replay_one
  replay_one-Next s e =
      Ends-if _ _ (str_eq (trim_space (to_lower e.email)) "") _ _
        (λ _. Ends-bind _ _ _ _ _ (any_end _) (λ _ _. Ends-pure _ _ _ (not_done_next _ _ _)))
        (λ _. Ends-bind _ _ _ _ _ (any_end _) (λ tried _. after_replay-Next e tried))

  after_claimed_next :
      (e : WebhookEvent) (o : Option WebhookEvent)
      → Tallies (done ++ e.id ∷ []) asked (after_claimed e out o)
  after_claimed_next e none = passed_over_next _ _ _
  after_claimed_next e (some updated) = by_status (is_replayed updated.status)
    where
      by_status :
          (b : Bool)
          → Tallies (done ++ e.id ∷ []) asked (
              if b
              then replay_was_done e.id updated.attempt_count out
              else replay_not_done e.id updated.attempt_count updated.last_error out)
      by_status true = was_done_next _ _
      by_status false = not_done_next _ _ _

  replay_one_atomic-Next : (ws : ℕ) (e : WebhookEvent) → Next e.id (replay_one_atomic ws e out)
  unfolding replay_one_atomic
  replay_one_atomic-Next ws e =
      Ends-bind _ _ _ _ _ (any_end _) (λ o _. Ends-pure _ _ _ (after_claimed_next e o))

  replay_round-Next :
      (s : MessageService) (ws : ℕ) (e : WebhookEvent) → Next e.id (replay_round s ws e out)
  replay_round-Next s ws e =
      Ends-if _ _ s.atomic_store _ _ (λ _. replay_one_atomic-Next ws e) (λ _. replay_one-Next s e)

abbrev pub event_ids_of : List WebhookEvent → List ℕ
event_ids_of es = map (λ e. e.id) es

replay_events-Tallies :
    (s : MessageService) (ws : ℕ) (done : List ℕ) (asked : ℕ) (es : List WebhookEvent)
    (out : ReplayResult)
    → Tallies done asked out
    → Ends (Tallies (done ++ event_ids_of es) asked) (λ _. Unit {0}) (replay_events s ws es out)
unfolding replay_events
replay_events-Tallies s ws done asked [] out t = rw append-nil (Ends-pure _ _ _ t)
replay_events-Tallies s ws done asked (e ∷ es) out t =
    Ends-bind _ _ _ _ _ (replay_round-Next done asked out t s ws e) (λ out' t'.
      subst (λ l. Ends (Tallies l asked) (λ _. Unit {0}) (replay_events s ws es out'))
        (append_assoc done (e.id ∷ []) (event_ids_of es))
        (replay_events-Tallies s ws (done ++ e.id ∷ []) asked es out' t'))

start : (ws asked : ℕ) (source : String) → Tallies [] asked (no_replays ws source asked)
unfolding count_if
start ws asked source = record {
  ids = refl;
  requested = refl;
  each_replayed = refl;
  each_skipped = refl;
  each_failed = refl;
  sum = refl;
}

-- the dead letters that are to be replayed: those with the ids, or the latest where none is given
abbrev pub to_replay : ℕ → List ℕ → ℤ → Db → List WebhookEvent
to_replay ws [] limit db = list_dead_letters ws (pos (clamp_limit 20 200 limit)) db
to_replay ws (id ∷ ids) limit db = list_dead_letters_by_id ws (id ∷ ids) db

abbrev pub ReplayTallied : List WebhookEvent → ReplayResult → Type 0
ReplayTallied es = Tallies (event_ids_of es) (length es)

-- the loops on what was listed
replay_listed-Tallied :
    (s : MessageService) (ws : ℕ) (source : String) (f : Db → List WebhookEvent) (st : State)
    → EndsFrom st
        (ReplayTallied (f st.db))
        (λ _. Unit {0})
        (query (λ db. ok (f db)) >>= λ es. replay_events s ws es (no_replays ws source (length es)))
replay_listed-Tallied s ws source f st =
    From-query _ _ _ _ _
      (λ es listed.
        subst
          (λ l.
            EndsFrom st (ReplayTallied l) (λ _. Unit {0})
              (replay_events s ws es (no_replays ws source (length es))))
          (of_ok (sym listed))
          (From-Ends _ _ _ _ (replay_events-Tallies s ws [] _ es _ (start ws (length es) source))))
      (λ _. tt)
  where
    of_ok : {es es' : List WebhookEvent} → Result.ok es ≡ ok es' → es ≡ es'
    of_ok h = cc h

-- What ReplayWebhookDeadLetters returns without an error, with the atomic store or without it, has
-- one outcome for each dead letter that the tables list at the start, in the order of the list, and
-- counts them in `requested`: those of the workspace with the positive ids that were given, or the
-- latest ones where there are none. Each counter is the number of outcomes of its kind, and the
-- counters add up to the number of these dead letters.
pub replay_dead_letters-Tallies :
    (s : MessageService) (ws : ℕ) (event_ids : List ℤ) (limit : ℤ) (w : World)
    → Post
        (ReplayTallied
          (to_replay (default_workspace ws) (normalize_positive_ids event_ids) limit w.state.db))
        (λ _. Unit {0})
        (replay_dead_letters s ws event_ids limit w).0
unfolding replay_dead_letters
replay_dead_letters-Tallies s ws event_ids limit w =
    (on_ids (normalize_positive_ids event_ids)).at w refl
  where
    on_ids :
        (ids : List ℕ)
        → EndsFrom w.state
            (ReplayTallied (to_replay (default_workspace ws) ids limit w.state.db))
            (λ _. Unit {0})
            (dead_letters_for (default_workspace ws) ids limit >>= λ es.
              replay_events s
                (default_workspace ws)
                es
                (no_replays (default_workspace ws) (replay_source_of ids) (length es)))
    on_ids [] = replay_listed-Tallied s (default_workspace ws) "latest" _ w.state
    on_ids (id ∷ ids) = replay_listed-Tallied s (default_workspace ws) "ids" _ w.state
