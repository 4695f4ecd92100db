-- ===== src/Queue/Fair.antt =====
-- The order in which popNext serves its two sources.
use maild.Base.{
  ℕ, suc, ◌≤◌, ◌≡◌, ◌⊎◌, refl, Bool, true, false, ◌&&◌, Option, none, some, List, [], ◌∷◌, arith,
  leb, ◌==◌, any,
}
use maild.Queue.{
  Delayed, RedisQueue, insert_delayed, remove_delayed, schedule_retry, first_due, pop_next,
}

first_due_mono :
    (now now' d : ℕ) (ds : List Delayed)
    → now ≤ now'
    → first_due now ds ≡ some d
    → first_due now' ds ≡ some d
first_due_mono now now' d [] h e = cc
first_due_mono now now' d (x ∷ xs) h e = ground arith

-- When the ready list and the retry set both have work, two pops in a row serve both: the head of
-- the ready list and the first due retry, in one order or the other, whatever the last source was.
pub pop_next_fair :
    (now now' a d : ℕ) (rest : List ℕ) (q : RedisQueue)
    → now ≤ now'
    → q.ready ≡ a ∷ rest
    → first_due now q.retry ≡ some d
    → let (first, q') = pop_next now q in
      let second = (pop_next now' q').0 in
      (first ≡ some d) × (second ≡ some a) ⊎ (first ≡ some a) × (second ≡ some d)
unfolding pop_next
pop_next_fair now now' a d rest q h r f = ground (arith, first_due_mono now now' d q.retry h f)

-- the entries from the first on have at least this score
abbrev pub AtLeast : ℕ → List Delayed → Type 0
AtLeast s [] = Unit
AtLeast s (d ∷ ds) = (s ≤ d.score) × AtLeast s ds

-- the retry set is in the order of its scores
abbrev pub IsOrdered : List Delayed → Type 0
IsOrdered [] = Unit
IsOrdered (d ∷ ds) = AtLeast d.score ds × IsOrdered ds

AtLeast-le : (s t : ℕ) (ds : List Delayed) → s ≤ t → AtLeast t ds → AtLeast s ds
AtLeast-le s t [] h a = tt
AtLeast-le s t (d ∷ ds) h a = (omega arith, AtLeast-le s t ds h a.1)

AtLeast-insert :
    (s : ℕ) (d : Delayed) (ds : List Delayed)
    → s ≤ d.score
    → AtLeast s ds
    → AtLeast s (insert_delayed d ds)
unfolding insert_delayed
AtLeast-insert s d [] h a = (h, tt)
AtLeast-insert s d (e ∷ es) h a = ground (arith, AtLeast-insert s d es h a.1)

IsOrdered-insert :
    (d : Delayed) (ds : List Delayed) → IsOrdered ds → IsOrdered (insert_delayed d ds)
unfolding insert_delayed
IsOrdered-insert d [] o = (tt, tt)
IsOrdered-insert d (e ∷ es) o =
    ground
      (arith, IsOrdered-insert d es o.1, AtLeast-insert e.score d es, AtLeast-le d.score e.score es)

AtLeast-remove : (s id : ℕ) (ds : List Delayed) → AtLeast s ds → AtLeast s (remove_delayed id ds)
unfolding remove_delayed
AtLeast-remove s id [] a = tt
AtLeast-remove s id (d ∷ ds) a = ground (arith, AtLeast-remove s id ds a.1)

pub IsOrdered-remove :
    (id : ℕ) (ds : List Delayed) → IsOrdered ds → IsOrdered (remove_delayed id ds)
unfolding remove_delayed
IsOrdered-remove id [] o = tt
IsOrdered-remove id (d ∷ ds) o =
    ground (arith, IsOrdered-remove id ds o.1, AtLeast-remove d.score id ds o.0)

-- ScheduleRetry and popNext keep the retry set in order.
pub schedule_retry-IsOrdered :
    (id at : ℕ) (q : RedisQueue) → IsOrdered q.retry → IsOrdered (schedule_retry id at q).retry
unfolding schedule_retry
schedule_retry-IsOrdered id at q o =
    IsOrdered-insert _ (remove_delayed id q.retry) (IsOrdered-remove id q.retry o)

none_due :
    (now s : ℕ) (ds : List Delayed)
    → AtLeast s ds
    → suc now ≤ s
    → any (λ d. leb d.score now) ds ≡ false
unfolding any
none_due now s [] a h = refl
none_due now s (d ∷ ds) a h = ground (arith, none_due now s ds a.1 h)

no_first_due :
    (now : ℕ) (ds : List Delayed)
    → IsOrdered ds
    → first_due now ds ≡ none
    → any (λ d. leb d.score now) ds ≡ false
unfolding any
no_first_due now [] o h = refl
no_first_due now (d ∷ ds) o h = ground (arith, none_due now d.score ds o.0)

-- popNext answers with nothing only when there is nothing to do: with the retry set in order, the
-- ready list is empty and no retry is due, and then the queue stays as it is.
pub pop_next-none :
    (now : ℕ) (q : RedisQueue)
    → IsOrdered q.retry
    → (pop_next now q).0 ≡ none
    → (q.ready ≡ []) × (any (λ d. leb d.score now) q.retry ≡ false) × ((pop_next now q).1 ≡ q)
unfolding pop_next
pop_next-none now q o h = (ground arith, ground (arith, no_first_due now q.retry o), ground arith)

-- a due entry of the id
abbrev pub is_due_id : ℕ → ℕ → Delayed → Bool
is_due_id now i d = d.id == i && leb d.score now

first_due-any :
    (now i : ℕ) (ds : List Delayed) → first_due now ds ≡ some i → any (is_due_id now i) ds ≡ true
unfolding any
first_due-any now i [] h = cc
first_due-any now i (d ∷ ds) h = ground arith

abbrev pub first_ready : List ℕ → Option ℕ
first_ready [] = none
first_ready (i ∷ _) = some i

-- No retry is taken before its time: an id that popNext answers with headed the ready list, or has
-- an entry in the retry set whose score is not past the present.
pub pop_next_due :
    (now i : ℕ) (q : RedisQueue)
    → (pop_next now q).0 ≡ some i
    → (first_ready q.ready ≡ some i) ⊎ (any (is_due_id now i) q.retry ≡ true)
unfolding pop_next
pop_next_due now i q h = ground (arith, first_due-any now i q.retry)
