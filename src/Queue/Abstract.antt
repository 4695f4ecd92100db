-- ===== src/Queue/Abstract.antt =====
-- What the queue promises: a bag of ready ids and a due time for each delayed id. The ready list,
-- the sorted set and the memory of the last source implement it.
use maild.Base.{
  ℕ, suc, ◌≤◌, ◌<◌, ◌≡◌, ◌⊎◌, inl, inr, refl, ap, true, Option, none, some, List, [], ◌∷◌, ◌++◌,
  arith, ◌==◌, if◌then◌else◌, count_if, ==_refl, Bool-cases,
}
use maild.Queue.{
  Delayed, RedisQueue, empty, enqueue, unix_milli, insert_delayed, remove_delayed, schedule_retry,
  first_due, Source, other_source, select, take_either, pop_next,
}
use maild.Queue.Laws.{ready_count}
use maild.Queue.Fair.{AtLeast, IsOrdered, IsOrdered-remove, schedule_retry-IsOrdered}

-- the time at which an id is due, if it is delayed
unfoldable pub score_of : ℕ → List Delayed → Option ℕ
score_of i [] = none
score_of i (d ∷ ds) = if d.id == i then some d.score else score_of i ds

-- what a client can know of the queue
pub record Work : Type 0 where
  pub ready : ℕ → ℕ
  pub due : ℕ → Option ℕ

abbrev pub work_of : RedisQueue → Work
work_of q = record { ready = λ i. ready_count i q; due = λ i. score_of i q.retry }

-- the operations, and what a client sees of each one
pub data Operation : Type 0 where
  push : ℕ → Operation
  delay : ℕ → ℕ → Operation
  pop : ℕ → Operation

pub data Event : Type 0 where
  pushed : ℕ → Event
  delayed : ℕ → ℕ → Event
  popped : ℕ → Option ℕ → Event

abbrev pub popped_at : ℕ → Option ℕ × RedisQueue → Event × RedisQueue
popped_at now (answer, q) = (popped now answer, q)

unfoldable pub run_one : Operation → RedisQueue → Event × RedisQueue
unfolding enqueue schedule_retry pop_next
run_one (push id) q = (pushed id, enqueue id q)
run_one (delay id at) q = (delayed id at, schedule_retry id at q)
run_one (pop now) q = popped_at now (pop_next now q)

unfoldable pub run_all : List Operation → RedisQueue → List Event × RedisQueue
unfolding run_one
run_all [] q = ([], q)
run_all (o ∷ os) q = let (e, q') = run_one o q in let (es, q'') = run_all os q' in (e ∷ es, q'')

abbrev pub IsDue : ℕ → Option ℕ → Type 0
IsDue now none = ⊥
IsDue now (some score) = score ≤ now

-- what each event does to the bag and the due times, and when a pop may answer so
abbrev pub Changes : Event → Work → Work → Type 0
Changes (pushed id) w w' =
    (i : ℕ) → (w'.ready i ≡ (if id == i then suc (w.ready i) else w.ready i)) × (w'.due i ≡ w.due i)
Changes (delayed id at) w w' =
    (i : ℕ)
    → (w'.ready i ≡ w.ready i) × (w'.due i ≡ (if id == i then some (unix_milli at) else w.due i))
Changes (popped now none) w w' =
    (i : ℕ)
    → (w.ready i ≡ 0) × (IsDue now (w.due i) → ⊥) × (w'.ready i ≡ w.ready i) × (w'.due i ≡ w.due i)
Changes (popped now (some id)) w w' =
    (((i : ℕ)
        → (w.ready i ≡ (if id == i then suc (w'.ready i) else w'.ready i)) × (w'.due i ≡ w.due i))
      ⊎ (IsDue now (w.due id)
          × ((i : ℕ)
              → (w'.ready i ≡ w.ready i) × (w'.due i ≡ (if id == i then none else w.due i)))))

-- the sequences of events that the bag allows
pub data Runs : Work → List Event → Work → Type 0 where
  stop : {w : Work} → Runs w [] w
  step :
      {e : Event} {es : List Event} {w v u : Work} → Changes e w v → Runs v es u → Runs w (e ∷ es) u

score_of-remove :
    (i id : ℕ) (ds : List Delayed)
    → score_of i (remove_delayed id ds) ≡ (if id == i then none else score_of i ds)
unfolding score_of remove_delayed
score_of-remove i id [] = ground arith
score_of-remove i id (d ∷ ds) = ground (arith, score_of-remove i id ds)

score_of-insert :
    (i : ℕ) (d : Delayed) (ds : List Delayed)
    → score_of d.id ds ≡ none
    → score_of i (insert_delayed d ds) ≡ (if d.id == i then some d.score else score_of i ds)
unfolding score_of insert_delayed
score_of-insert i d [] h = ground arith
score_of-insert i d (e ∷ es) h = ground (arith, score_of-insert i d es)

removed : (id : ℕ) (ds : List Delayed) → score_of id (remove_delayed id ds) ≡ none
removed id ds =
    let r = score_of-remove id id ds in
    let same : (id == id) ≡ true = ==_refl id in ground (arith, r, same)

score_of-schedule :
    (i id score : ℕ) (ds : List Delayed)
    → score_of i (insert_delayed (record { score = score; id = id }) (remove_delayed id ds))
      ≡ (if id == i then some score else score_of i ds)
score_of-schedule i id score ds =
    let inserted =
      score_of-insert i (record { score = score; id = id }) (remove_delayed id ds)
        (removed id ds) in
    ground (arith, inserted, score_of-remove i id ds)

first_due-IsDue :
    (now i : ℕ) (ds : List Delayed) → first_due now ds ≡ some i → IsDue now (score_of i ds)
unfolding score_of
first_due-IsDue now i [] h = absurd cc
first_due-IsDue now i (d ∷ ds) h = ground arith

later_than :
    (now s i : ℕ) (ds : List Delayed) → AtLeast s ds → now < s → IsDue now (score_of i ds) → ⊥
unfolding score_of
later_than now s i [] a h = λ k. k
later_than now s i (d ∷ ds) a h = elim (Bool-cases (d.id == i)) [
  | inl e ↦ rw e (λ k. absurd (omega (arith, a.0, h, k)))
  | inr e ↦ rw e (later_than now s i ds a.1 h)
]

nothing_due :
    (now i : ℕ) (ds : List Delayed)
    → IsOrdered ds
    → first_due now ds ≡ none
    → IsDue now (score_of i ds)
    → ⊥
unfolding score_of
nothing_due now i [] o h = λ k. k
nothing_due now i (d ∷ ds) o h =
    let above : now < d.score = ground (arith, h) in
    elim (Bool-cases (d.id == i)) [
      | inl e ↦ rw e (λ k. absurd (omega (arith, above, k)))
      | inr e ↦ rw e (later_than now d.score i ds o.0 above)
    ]

ready_count-append :
    (i id : ℕ) (ids : List ℕ)
    → count_if (λ j. j == i) (ids ++ id ∷ [])
      ≡ (if id == i then suc (count_if (λ j. j == i) ids) else count_if (λ j. j == i) ids)
unfolding count_if
ready_count-append i id [] = ground arith
ready_count-append i id (j ∷ ids) = ground (arith, ready_count-append i id ids)

-- the two ways in which a pop answers with an id
retry_taken :
    (now id : ℕ) (q : RedisQueue)
    → first_due now q.retry ≡ some id
    → Changes
        (popped now (some id))
        (work_of q)
        (work_of (record q { retry = remove_delayed id q.retry; last = some Source.retry }))
retry_taken now id q h =
    inr (first_due-IsDue now id q.retry h, λ i. (refl, score_of-remove i id q.retry))

ready_taken :
    (now id : ℕ) (rest : List ℕ) (q : RedisQueue)
    → q.ready ≡ id ∷ rest
    → Changes
        (popped now (some id))
        (work_of q)
        (work_of (record q { ready = rest; last = some Source.ready }))
unfolding count_if
ready_taken now id rest q h =
    inl (λ i. (let many = ap (count_if (λ j. j == i)) h in ground (arith, many), refl))

select-Changes :
    (now : ℕ) (q : RedisQueue) (o : Option ℕ) (ids : List ℕ)
    → IsOrdered q.retry
    → first_due now q.retry ≡ o
    → q.ready ≡ ids
    → Changes (popped_at now (select o ids q)).0 (work_of q) (work_of (select o ids q).1)
unfolding count_if
select-Changes now q none [] o h k =
    λ i. (ap (count_if (λ j. j == i)) k, nothing_due now i q.retry o h, refl, refl)
select-Changes now q none (id ∷ rest) o h k = ready_taken now id rest q k
select-Changes now q (some d) [] o h k = retry_taken now d q h
select-Changes now q (some d) (id ∷ rest) o h k = by_source (other_source q.last)
  where
    by_source :
        (s : Source)
        → Changes
            (popped_at now (take_either s d id rest q)).0
            (work_of q)
            (work_of (take_either s d id rest q).1)
    by_source Source.retry = retry_taken now d q h
    by_source Source.ready = ready_taken now id rest q k

run_one-Changes :
    (o : Operation) (q : RedisQueue)
    → IsOrdered q.retry
    → Changes (run_one o q).0 (work_of q) (work_of (run_one o q).1)
unfolding run_one enqueue schedule_retry pop_next
run_one-Changes (push id) q h = λ i. (ready_count-append i id q.ready, refl)
run_one-Changes (delay id at) q h = λ i. (refl, score_of-schedule i id (unix_milli at) q.retry)
run_one-Changes (pop now) q h = select-Changes now q (first_due now q.retry) q.ready h refl refl

select-IsOrdered :
    (o : Option ℕ) (ids : List ℕ) (q : RedisQueue)
    → IsOrdered q.retry
    → IsOrdered (select o ids q).1.retry
select-IsOrdered none [] q h = h
select-IsOrdered none (id ∷ rest) q h = h
select-IsOrdered (some d) [] q h = IsOrdered-remove d q.retry h
select-IsOrdered (some d) (id ∷ rest) q h = by_source (other_source q.last)
  where
    by_source : (s : Source) → IsOrdered (take_either s d id rest q).1.retry
    by_source Source.retry = IsOrdered-remove d q.retry h
    by_source Source.ready = h

run_one-IsOrdered :
    (o : Operation) (q : RedisQueue) → IsOrdered q.retry → IsOrdered (run_one o q).1.retry
unfolding run_one enqueue pop_next
run_one-IsOrdered (push id) q h = h
run_one-IsOrdered (delay id at) q h = schedule_retry-IsOrdered id at q h
run_one-IsOrdered (pop now) q h = select-IsOrdered (first_due now q.retry) q.ready q h

run_all-Runs :
    (os : List Operation) (q : RedisQueue)
    → IsOrdered q.retry
    → Runs (work_of q) (run_all os q).0 (work_of (run_all os q).1)
unfolding run_all
run_all-Runs [] q h = stop
run_all-Runs (o ∷ os) q h =
    step (run_one-Changes o q h) (run_all-Runs os (run_one o q).1 (run_one-IsOrdered o q h))

-- The queue in Redis refines the bag with due times: from the empty queue on, whatever is pushed,
-- delayed and popped in whatever order and at whatever times, what the clients see is a sequence of
-- events that the bag allows, and the bag at its end is what the queue then holds. So a pop answers
-- with an id that is ready or due and takes it once, and answers with nothing only if there is none.
pub run_all_refines :
    (os : List Operation) → Runs (work_of empty) (run_all os empty).0 (work_of (run_all os empty).1)
run_all_refines os = run_all-Runs os empty tt
