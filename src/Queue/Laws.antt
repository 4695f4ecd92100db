-- ===== src/Queue/Laws.antt =====
-- No id is lost or made up, nothing is taken before its time, and no work is left unseen.
use maild.Base.{
  ℕ, ◌+◌, ◌≤◌, ◌≡◌, refl, ap, Bool, Option, none, some, List, [], ◌∷◌, arith, ◌==◌, if◌then◌else◌,
  count_if,
}
use maild.Queue.{
  Delayed, RedisQueue, unix_milli, insert_delayed, remove_delayed, schedule_retry, first_due,
  select, pop_next,
}

-- how often the ready list holds an id
abbrev pub ready_count : ℕ → RedisQueue → ℕ
ready_count i q = count_if (λ j. j == i) q.ready

abbrev pub is_delayed : ℕ → Delayed → Bool
is_delayed i d = d.id == i

-- how often the retry set holds an id
abbrev pub retry_count : ℕ → RedisQueue → ℕ
retry_count i q = count_if (is_delayed i) q.retry

-- a sorted set holds a member once
abbrev pub HasOnce : RedisQueue → Type 0
HasOnce q = (i : ℕ) → retry_count i q ≤ 1

-- once for the id that was popped
abbrev pub popped : ℕ → Option ℕ → ℕ
popped i none = 0
popped i (some j) = if j == i then 1 else 0

count-remove_delayed :
    (i id : ℕ) (ds : List Delayed)
    → count_if (is_delayed i) (remove_delayed id ds)
      ≡ (if id == i then 0 else count_if (is_delayed i) ds)
unfolding count_if remove_delayed
count-remove_delayed i id [] = ground arith
count-remove_delayed i id (d ∷ ds) = ground (arith, count-remove_delayed i id ds)

count-insert_delayed :
    (i : ℕ) (d : Delayed) (ds : List Delayed)
    → count_if (is_delayed i) (insert_delayed d ds)
      ≡ (if d.id == i then 1 else 0) + count_if (is_delayed i) ds
unfolding count_if insert_delayed
count-insert_delayed i d [] = ground arith
count-insert_delayed i d (e ∷ es) = ground (arith, count-insert_delayed i d es)

-- ScheduleRetry leaves the id in the retry set once and every other entry as it is.
pub retry_count-schedule_retry :
    (i id at : ℕ) (q : RedisQueue)
    → retry_count i (schedule_retry id at q) ≡ (if id == i then 1 else retry_count i q)
unfolding schedule_retry
retry_count-schedule_retry i id at q = ground (
  arith,
  count-insert_delayed i (record { score = unix_milli at; id = id }) (remove_delayed id q.retry),
  count-remove_delayed i id q.retry,
)

-- the first due entry is an entry
first_due-count :
    (i now : ℕ) (ds : List Delayed) → first_due now ds ≡ some i → 1 ≤ count_if (is_delayed i) ds
unfolding count_if
first_due-count i now [] h = cc
first_due-count i now (d ∷ ds) h = ground arith

select_conserves :
    (i now : ℕ) (q : RedisQueue) (o : Option ℕ) (ids : List ℕ)
    → HasOnce q
    → first_due now q.retry ≡ o
    → q.ready ≡ ids
    → ready_count i q + retry_count i q
      ≡ popped i (select o ids q).0
        + ready_count i (select o ids q).1
        + retry_count i (select o ids q).1
unfolding count_if
select_conserves i now q none [] once h k = omega arith
select_conserves i now q none (a ∷ rest) once h k = ground (arith, ap (count_if (λ j. j == i)) k)
select_conserves i now q (some d) ids once h k =
    let many = ap (count_if (λ j. j == i)) k in
    ground (
      arith,
      many,
      once i,
      once d,
      count-remove_delayed i d q.retry,
      first_due-count d now q.retry h,
    )

-- popNext takes one occurrence of the id that it answers with, from the ready list or the retry
-- set, and leaves every other occurrence of every id; with no answer it leaves all.
pub pop_next_conserves :
    (i now : ℕ) (q : RedisQueue)
    → HasOnce q
    → ready_count i q + retry_count i q
      ≡ popped i (pop_next now q).0
        + ready_count i (pop_next now q).1
        + retry_count i (pop_next now q).1
unfolding pop_next
pop_next_conserves i now q once =
    select_conserves i now q (first_due now q.retry) q.ready once refl refl
