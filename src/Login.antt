-- ===== src/Login.antt =====
-- internal/auth/ratelimit.go: the limiter of failed sign-ins. The keys of Redis are two maps from the
-- client's address, with the instants at which they expire; each command goes through or fails
-- without effect, as `Answers` says.
pub mod Laws
pub mod Lockout
use maild.Base.{
  ℕ, suc, ◌+◌, Bool, true, false, ◌&&◌, ◌||◌, not, Option, none, some, List, [], ◌∷◌, String, ltb,
  ◌==◌, str_eq, if◌then◌else◌,
}
use maild.Base.Int.{ℤ, pos, leb_ℤ}
use maild.Text.{trim_space, split}
use maild.Store.Defs.{redis_error, Result, ok, err}

-- `connected` is whether neither the limiter nor its client is nil
pub record LoginRateLimiter : Type 0 where
  pub connected : Bool
  pub max_failures : ℤ
  pub failure_window : ℕ
  pub lockout : ℕ

-- a counter with the instant at which it expires, if it does
pub record Counter : Type 0 where
  pub count : ℕ
  pub expires : Option ℕ

pub record LoginState : Type 0 where
  pub fails : String → Option Counter
  pub blocks : String → Option (Option ℕ)

-- whether each command goes through
pub record Answers : Type 0 where
  pub on_exists : Bool
  pub on_incr : Bool
  pub on_expire : Bool
  pub on_set : Bool
  pub on_del : Bool
  pub on_del_block : Bool

abbrev pub put : {A : Type 0} → String → Option A → (String → Option A) → String → Option A
put key value f k = if str_eq key k then value else f k

abbrev pub is_live : ℕ → Option ℕ → Bool
is_live now none = true
is_live now (some at) = ltb now at

abbrev pub live_block : ℕ → Option (Option ℕ) → Bool
live_block now none = false
live_block now (some expires) = is_live now expires

-- IsLocked
unfoldable pub is_locked : LoginRateLimiter → Answers → String → ℕ → LoginState → Result Bool
is_locked l a ip now st =
    if not l.connected
    then ok false
    else if a.on_exists
    then ok (live_block now (st.blocks ip))
    else err redis_error

-- the counter of a key that is there and has not expired
abbrev pub live_counter : ℕ → Option Counter → Counter
live_counter now none = record { count = 0; expires = none }
live_counter now (some c) =
    if is_live now c.expires then c else record { count = 0; expires = none }

unfoldable pub failures : String → ℕ → LoginState → ℕ
failures ip now st = (live_counter now (st.fails ip)).count

-- INCR
abbrev pub counted : Counter → Counter
counted c = record c { count = suc c.count }

-- EXPIRE, which deletes the key at a time that is not positive
abbrev pub expiring : ℕ → ℕ → Counter → Option Counter
expiring now window c =
    if window == 0 then none else some (record c { expires = some (now + window) })

-- the counter after INCR and, at the first failure, EXPIRE
abbrev pub after_incr : LoginRateLimiter → Answers → ℕ → Counter → Option Counter
after_incr l a now c =
    if c.count == 1 && a.on_expire then expiring now l.failure_window c else some c

-- SET with a time to live, where 0 stands for none
abbrev pub lock_expiry : ℕ → ℕ → Option ℕ
lock_expiry now lockout = if lockout == 0 then none else some (now + lockout)

abbrev pub reached : LoginRateLimiter → Counter → Bool
reached l c = leb_ℤ l.max_failures (pos c.count)

-- RecordFailure
unfoldable pub record_failure :
    LoginRateLimiter → Answers → String → ℕ → LoginState → Result (Unit {0}) × LoginState
record_failure l a ip now st =
    let c = counted (live_counter now (st.fails ip)) in
    if not l.connected then (ok tt, st) else if not a.on_incr then (err redis_error, st) else (
      ok tt,
      record {
        fails = put ip (if reached l c && a.on_del then none else after_incr l a now c) st.fails;
        blocks =
            if reached l c && a.on_set
            then put ip (some (lock_expiry now l.lockout)) st.blocks
            else st.blocks;
      },
    )

-- Reset
unfoldable pub reset :
    LoginRateLimiter → Answers → String → LoginState → Result (Unit {0}) × LoginState
reset l a ip st = if not l.connected then (ok tt, st) else (
  ok tt,
  record {
    fails = if a.on_del then put ip none st.fails else st.fails;
    blocks = if a.on_del_block then put ip none st.blocks else st.blocks;
  },
)

abbrev pub first_part : List String → String
first_part [] = ""
first_part (p ∷ ps) = trim_space p

abbrev pub or_remote : String → Option String → String
or_remote remote none = remote
or_remote remote (some host) = host

-- clientIP; `split_host_port` is net.SplitHostPort, without the port
unfoldable pub client_ip : (String → Option String) → String → String → String → String
client_ip split_host_port forwarded real_ip remote =
    let first = first_part (split b',' forwarded) in
    if not (str_eq forwarded "") && not (str_eq first "")
    then first
    else if not (str_eq real_ip "")
    then trim_space real_ip
    else or_remote remote (split_host_port remote)
