-- ===== src/World.antt =====
-- What the service acts on: the database, the queue, the rate counters, the clock and the mail that
-- the SMTP relays took over; and what may go wrong there. A call of PostgreSQL or Redis can fail
-- before it had any effect (`refused`) or after it (`lost`: the work is done and the answer is an
-- error). A relay does at each
-- step of its dialog what its `Server` says.
pub mod Keeps
pub mod Ends
pub mod From
pub mod Ensures
pub mod Grants
use mathlib.Core.Option
use maild.Base.{ℕ, ◌+◌, Option, none, some, List, [], ◌∷◌, ◌++◌, String, if◌then◌else◌}
use maild.Store.Defs.{Db, Err, db_error, redis_error, Result, ok, err}
use maild.Queue.{RedisQueue}
use maild.Smtp.{Server, Credentials, good_server, provider_name, send_dialog, delivered}

-- one message that a relay took over
pub record Mail : Type 0 where
  pub provider : String
  pub to_email : String
  pub text : String

-- the keys "maild:rl:ws:%d:%s" and "maild:rl:domain:%d:%s:%s" of the rate counters
pub data RateKey : Type 0 where
  workspace_window : ℕ → ℕ → RateKey
  domain_window : ℕ → String → ℕ → RateKey

pub record State : Type 0 where
  pub db : Db
  pub queue : RedisQueue
  pub rates : List (RateKey × ℕ)
  pub now : ℕ
  pub outbox : List Mail

pub data Fault : Type 0 where
  fine refused lost : Fault

-- `faults` says how the calls to come end, and `servers` what the relay does at each connection to
-- come; past the end of a list all goes well
pub record World : Type 0 where
  pub state : State
  pub faults : List Fault
  pub servers : List Server

-- a Go function that returns `(T, error)` and may have effects
abbrev pub Act : Type 0 → Type 0
Act A = World → Result A × World

module _ {A : Type 0} where
  unfoldable pub pure : A → Act A
  pure a w = (ok a, w)

  unfoldable pub raise : Err → Act A
  raise e w = (err e, w)

  abbrev pub outcome : Err → Fault → List Fault → Result A × State → World → Result A × World
  outcome e fine fs (r, s) w = (r, record w { state = s; faults = fs })
  outcome e refused fs (r, s) w = (err e, record w { faults = fs })
  outcome e lost fs (r, s) w = (err e, record w { state = s; faults = fs })

  abbrev pub next_outcome : Err → List Fault → Result A × State → World → Result A × World
  next_outcome e [] (r, s) w = (r, record w { state = s })
  next_outcome e (f ∷ fs) rs w = outcome e f fs rs w

  -- a call of another process, which ends as the next fault says
  unfoldable pub attempt : Err → (State → Result A × State) → Act A
  attempt e f w = next_outcome e w.faults (f w.state) w

module _ {A B : Type 0} where
  -- `a, err := m; k(a, err)`
  unfoldable pub handle : Act A → (Result A → Act B) → Act B
  handle m k w = let (r, w') = m w in k r w'

  abbrev pub or_raise : (A → Act B) → Result A → Act B
  or_raise f (ok a) = f a
  or_raise f (err e) = raise e

  infixl 5 ◌>>=◌
  -- `a, err := m; if err != nil { return err }; f(a)`
  unfoldable pub ◌>>=◌ : Act A → (A → Act B) → Act B
  unfolding handle
  m >>= f = handle m (or_raise f)

infixl 5 ◌>>◌
abbrev pub ◌>>◌ : {A : Type 0} → Act (Unit {0}) → Act A → Act A
m >> n = m >>= λ _. n

-- `_ = m`
unfoldable pub ignore : {A : Type 0} → Act A → Act (Unit {0})
unfolding handle pure
ignore m = handle m (λ _. pure tt)

-- a query of the database
unfoldable pub query : {A : Type 0} → (Db → Result A) → Act A
unfolding attempt
query f = attempt db_error (λ s. (f s.db, s))

-- a statement that changes the database
unfoldable pub exec : {A : Type 0} → (ℕ → Db → Result A × Db) → Act A
unfolding attempt
exec f = attempt db_error (λ s. let (r, db) = f s.now s.db in (r, record s { db = db }))

-- a command of Redis
unfoldable pub redis : {A : Type 0} → (State → A × State) → Act A
unfolding attempt
redis f = attempt redis_error (λ s. let (a, s') = f s in (ok a, s'))

-- time.Now()
unfoldable pub clock : Act ℕ
clock w = (ok w.state.now, w)

abbrev pub next_server : List Server → Server
next_server [] = good_server
next_server (v ∷ _) = v

abbrev pub later_servers : List Server → List Server
later_servers [] = []
later_servers (_ ∷ vs) = vs

abbrev pub put_mail : Option Mail → List Mail → List Mail
put_mail none mails = mails
put_mail (some m) mails = mails ++ m ∷ []

-- Client.Send: the mail is in the outbox if the relay took it over, whatever it answered
unfoldable pub send : Credentials → String → String → String → Act (Unit {0})
send creds to_email subject body w =
    let v = next_server w.servers in
    let d = send_dialog v creds to_email subject body in
    let mail =
      Option.map
        (λ text. record { provider = provider_name creds; to_email = to_email; text = text })
        (delivered v d) in
    (
      d.result,
      record w {
        state = record w.state { outbox = put_mail mail w.state.outbox };
        servers = later_servers w.servers;
      },
    )
