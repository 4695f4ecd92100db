-- ===== src/Session.antt =====
-- internal/auth/session.go: the sessions of signed-in users. Redis is a map from session ids, each
-- key with the instant at which Redis drops it, if it does; each command goes through or fails
-- without effect, as `Answers` says. An id is 64 hexadecimal digits of crypto/rand, a parameter.
pub mod Laws
use maild.Base.{ℕ, ◌+◌, ◌*◌, ◌/◌, Bool, not, Option, none, some, String, ltb, ◌==◌, if◌then◌else◌}
use maild.Base.Int.{ℤ}
use maild.Store.Defs.{Err, redis_error}
use maild.Login.{put, is_live}

-- the hash "session:<id>"
pub record Session : Type 0 where
  pub user_id : ℤ
  pub expires_at : ℕ  -- in seconds
  pub dropped_at : Option ℕ  -- the time to live of the key

abbrev pub Sessions : Type 0
Sessions = String → Option Session

-- whether each command goes through
pub record Answers : Type 0 where
  pub on_random : Bool
  pub on_hset : Bool
  pub on_expire : Bool
  pub on_hmget : Bool
  pub on_del : Bool

pub data SessionError : Type 0 where
  session_not_found session_expired : SessionError
  failed : Err → SessionError

pub data Outcome (A : Type 0) : Type 0 where
  done : A → Outcome A
  fails : SessionError → Outcome A

abbrev pub nanos : ℕ
nanos = 1000000000

-- the seconds that go-redis sends for a time to live
abbrev pub ttl_seconds : ℕ → ℕ
ttl_seconds ttl = if ltb ttl nanos then 1 else ttl / nanos

-- EXPIRE, which drops the key at once where the time is 0
abbrev pub expired_after : ℕ → ℕ → Session → Option Session
expired_after now ttl e =
    if ttl == 0 then none else some (record e { dropped_at = some (now + ttl_seconds ttl * nanos) })

abbrev pub written : ℤ → ℕ → ℕ → Session
written user now ttl = record {
  user_id = user;
  expires_at = (now + ttl) / nanos;
  dropped_at = none;
}

-- Create, for the random id
unfoldable pub create_session : Answers → String → ℤ → ℕ → ℕ → Sessions → Outcome String × Sessions
create_session a id user ttl now st =
    if not a.on_random
    then (fails (failed redis_error), st)
    else if not a.on_hset
    then (fails (failed redis_error), st)
    else if not a.on_expire
    then (fails (failed redis_error), put id (some (written user now ttl)) st)
    else (done id, put id (expired_after now ttl (written user now ttl)) st)

-- the session of an id that Redis still has
abbrev pub live_session : ℕ → Option Session → Option Session
live_session now none = none
live_session now (some e) = if is_live now e.dropped_at then some e else none

abbrev pub drop_if : Bool → String → Sessions → Sessions
drop_if b id st = if b then put id none st else st

abbrev pub get_found : Answers → String → ℕ → Sessions → Option Session → Outcome ℤ × Sessions
get_found a id now st none = (fails session_not_found, st)
get_found a id now st (some e) =
    if ltb e.expires_at (now / nanos)
    then (fails session_expired, drop_if a.on_del id st)
    else (done e.user_id, st)

-- Get
unfoldable pub get_session : Answers → String → ℕ → Sessions → Outcome ℤ × Sessions
get_session a id now st =
    if not a.on_hmget
    then (fails (failed redis_error), st)
    else get_found a id now st (live_session now (st id))

-- Delete
unfoldable pub delete_session : Answers → String → Sessions → Outcome (Unit {0}) × Sessions
delete_session a id st =
    if a.on_del then (done tt, put id none st) else (fails (failed redis_error), st)
