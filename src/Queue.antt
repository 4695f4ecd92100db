-- ===== src/Queue.antt =====
-- internal/queue/redis_queue.go: the FIFO list of ready ids, the delayed retry set and the key that
-- remembers the last source. The popNext script runs atomically in Redis, so it is one function.
pub mod Laws
pub mod Fair
pub mod Abstract
use Prim.Native.String.{compare}
use maild.Base.{
  ℕ, ◌+◌, ◌/◌, Bool, ◌&&◌, ◌||◌, Option, none, some, List, [], ◌∷◌, ◌++◌, ltb, leb, ◌==◌,
  if◌then◌else◌,
}
use maild.Decimal.{decimal}
use text.Mathlib.Text.{is_le}

-- a member of the retry set with its score
pub record Delayed : Type 0 where
  pub score : ℕ
  pub id : ℕ

pub data Source : Type 0 where
  ready retry : Source

-- `ready` begins with the id that RPOP takes; `retry` is in the order of ZRANGEBYSCORE; `last` is
-- absent before the first pop
pub record RedisQueue : Type 0 where
  pub ready : List ℕ
  pub retry : List Delayed
  pub last : Option Source

abbrev pub empty : RedisQueue
empty = record { ready = []; retry = []; last = none }

-- Enqueue: LPUSH
unfoldable pub enqueue : ℕ → RedisQueue → RedisQueue
enqueue id q = record q { ready = q.ready ++ id ∷ [] }

-- time.Time.UnixMilli of an instant in nanoseconds
abbrev pub unix_milli : ℕ → ℕ
unix_milli at = at / 1000000

-- the order of a sorted set: by score, and for one score by the members' texts
abbrev pub precedes : Delayed → Delayed → Bool
precedes d e =
    ltb d.score e.score || (d.score == e.score && is_le (compare (decimal d.id) (decimal e.id)))

unfoldable pub insert_delayed : Delayed → List Delayed → List Delayed
insert_delayed d [] = d ∷ []
insert_delayed d (e ∷ es) = if precedes d e then d ∷ e ∷ es else e ∷ insert_delayed d es

-- ZREM
unfoldable pub remove_delayed : ℕ → List Delayed → List Delayed
remove_delayed id [] = []
remove_delayed id (e ∷ es) =
    let rest = remove_delayed id es in if e.id == id then rest else e ∷ rest

-- ScheduleRetry: ZADD, which moves a member that is there already
unfoldable pub schedule_retry : ℕ → ℕ → RedisQueue → RedisQueue
schedule_retry id at q = record q {
  retry = insert_delayed (record { score = unix_milli at; id = id }) (remove_delayed id q.retry);
}

-- ZRANGEBYSCORE KEYS[2] -inf now LIMIT 0 1
abbrev pub first_due : ℕ → List Delayed → Option ℕ
first_due now [] = none
first_due now (d ∷ _) = if leb d.score now then some d.id else none

-- `last == 'retry' and 'ready' or 'retry'`, where an absent key counts as 'ready'
abbrev pub other_source : Option Source → Source
other_source (some retry) = ready
other_source _ = retry

abbrev pub take_retry : ℕ → RedisQueue → Option ℕ × RedisQueue
take_retry id q =
    (some id, record q { retry = remove_delayed id q.retry; last = some Source.retry })

abbrev pub take_ready : ℕ → List ℕ → RedisQueue → Option ℕ × RedisQueue
take_ready id rest q = (some id, record q { ready = rest; last = some Source.ready })

abbrev pub take_either : Source → ℕ → ℕ → List ℕ → RedisQueue → Option ℕ × RedisQueue
take_either retry delayed id rest q = take_retry delayed q
take_either ready delayed id rest q = take_ready id rest q

-- the branches of the script, on the due retry and the ready list
abbrev pub select : Option ℕ → List ℕ → RedisQueue → Option ℕ × RedisQueue
select none [] q = (none, q)
select none (id ∷ rest) q = take_ready id rest q
select (some delayed) [] q = take_retry delayed q
select (some delayed) (id ∷ rest) q = take_either (other_source q.last) delayed id rest q

-- popNext at a time in milliseconds
unfoldable pub pop_next : ℕ → RedisQueue → Option ℕ × RedisQueue
pop_next now q = select (first_due now q.retry) q.ready q

abbrev pub pop_ready : List ℕ → RedisQueue → Option ℕ × RedisQueue
pop_ready [] q = (none, record q { ready = [] })
pop_ready (id ∷ rest) q = (some id, record q { ready = rest })

abbrev pub or_wait : List ℕ → Option ℕ × RedisQueue → Option ℕ × RedisQueue
or_wait arrived (some id, q) = (some id, q)
or_wait arrived (none, q) = pop_ready (q.ready ++ arrived) q

-- Dequeue: popNext, and else BRPOP, while which other clients push the ids `arrived`
unfoldable pub dequeue : ℕ → List ℕ → RedisQueue → Option ℕ × RedisQueue
dequeue now arrived q = or_wait arrived (pop_next now q)
