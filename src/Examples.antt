-- ===== src/Examples.antt =====
-- Concrete runs: each theorem at a service, a world and tables as they might be.
mod Settings
mod Requests
mod Deliveries
use maild.Base.{
  List, keep, String, ◌++◌, ℕ, ◌+◌, ◌*◌, ◌^◌, ◌≤◌, ◌≡◌, ◌⊎◌, refl, true, false, ◌&&◌, ◌||◌, none,
  some, [], ◌∷◌, arith, ◌==◌, if◌then◌else◌, any, find, count_if,
}
use Prim.Native.String.{◌++◌ as ◌+s◌}
use maild.Base.Int.{pos, negsuc}
use maild.Text.{is_space, trim_left, trim_right, trim_space}
use maild.Domain.{
  Status, queued, sending, sent, failed, Message, processing, dead_letter, replayed, WebhookEvent,
}
use maild.Store.Defs
use maild.Store.Defs.{Db, ok, err, other}
use maild.Store.Messages.{
  get_message, transition_message_status, next_attempt_no, last_attempt_no, insert_attempt,
}
use maild.Store.Messages.Laws.{
  status_of, transition_message_status_once, insert_attempt-next_attempt_no,
}
use maild.Store.Recipients.{listed, is_suppressed, is_unsubscribed}
use maild.Store.Accounts.{get_account_payload, upsert_account, set_active_account}
use maild.Store.Accounts.Laws.{IsConsistent, set_active_account-IsConsistent}
use maild.Store.Accounts.Upsert.{upsert_account-IsConsistent}
use maild.Store.Webhooks.{
  classify_bounce, apply_event_tx, process_event_atomic, replay_event_atomic,
}
use maild.Store.Webhooks.Laws.{
  suppresses, concerns, is_suppressed-apply_event_tx, process_event_atomic_again,
  replay_event_atomic_once,
}
use maild.Queue
use maild.Queue.{RedisQueue, pop_next}
use maild.Queue.Fair.{pop_next_fair}
use maild.Queue.Abstract.{Operation, push, delay, pop, run_all, work_of, Runs, run_all_refines}
use maild.Smtp.{
  connect, normalize_tls_mode, open_session, authenticate, sent_text, Credentials, Server,
  good_server, provider_name, delivered, send_dialog, validate_dialog, build_message, crlf,
}
use maild.Smtp.Laws.{protects, render, send_dialog-protects, build_message_adds_header}
use maild.World.{World, query}
use maild.World.Ends.{Post}
use maild.Service.Defs.{scheduling, MessageService, positive_or}
use maild.Service.Helpers.{backoff_duration, webhook_backoff_duration, normalize_positive_ids}
use maild.Service.Helpers.Backoff.{backoff_duration_overflows}
use maild.Service.Process.{process_one}
use maild.Service.Process.Claims.{calm}
use maild.Service.Process.Rounds.{IsRefusing, rounds, rounds_end}
use maild.Service.Process.Delivers.{process_one_delivers}
use maild.Service.Process.Sends.{MayBeSent, AtMostOneMail, process_one_sends}
use maild.Service.Queueing.{queue_message}
use maild.Service.Queueing.Laws.{AtMostOneRow, queue_message_admits}
use maild.Service.Retry.{retry_messages}
use maild.Service.Retry.Laws.{IsTallied, latest_failed, wanted, retry_messages-IsTallied}
use maild.Service.Recovery.{recover_queue}
use maild.Service.Recovery.Laws.{PutBack, recover_queue-PutBack}
use maild.Service.Events.{replay_dead_letters}
use maild.Service.Events.Laws.{ReplayTallied, to_replay, replay_dead_letters-Tallies}
use maild.ApiKey.{Principal, is_principal, api_key_middleware, passed, workspace, granted}
use maild.ApiKey.Laws.{IsInstanceKey, workspace_own, api_key_middleware-IsInstanceKey}
use maild.Login.{LoginRateLimiter, LoginState}

abbrev relay : Credentials
relay = record {
  host = "smtp.example.com";
  port = 587;
  username = "mailer";
  password = "secret";
  sender = "noreply@example.com";
  tls_mode = "starttls";
}

-- a service whose sealer, digest and JSON encoder are stand-ins
abbrev pub service : MessageService
service = record {
  queue = scheduling;
  recovery_store = true;
  retry_at_store = true;
  atomic_store = true;
  sealer = record { seal = λ a. ok a.name; unseal = λ t. err (other t) };
  default_creds = relay;
  limit_workspace = pos 200;
  limit_domain = pos 50;
  digest = λ t. t;
  json = λ fields. "{}";
  blocked_recipient_domains = "blocked.example" ∷ [];
  max_attempts = 3;
  webhook_apply_max_attempts = 3;
  default_workspace_rate = pos 200;
  default_domain_rate = pos 50;
  auto_failover_enabled = true;
  auto_failover_failures = 3;
  auto_failover_window = 300000000000;
  auto_failover_cooldown = 60000000000;
}

abbrev message : ℕ → Status → Message
message id status = record {
  id = id;
  workspace_id = 1;
  from_email = "noreply@example.com";
  to_email = "ann@example.org";
  subject = "Hello";
  body_text = "Hi Ann";
  status = status;
  scheduled_at = none;
  created_at = 5;
  updated_at = 5;
}

abbrev pub tables : Db
tables = record Defs.empty {
  messages = message 1 queued ∷ message 2 sent ∷ [];
  next_message_id = 3;
}

abbrev pub world : World
world = record {
  state = record { db = tables; queue = Queue.empty; rates = []; now = 4000000000000; outbox = [] };
  faults = [];
  servers = [];
}

process_one_sends_example : AtMostOneMail 1 world.state (process_one service 1 world).1.state.outbox
process_one_sends_example = process_one_sends service 1 world

first-MayBeSent : MayBeSent 1 tables (message 1 queued)
unfolding get_message find is_suppressed is_unsubscribed listed any
first-MayBeSent = (refl, refl, refl)

default_account : get_account_payload 1 tables ≡ none
unfolding get_account_payload keep
default_account = refl

abbrev mail_text : String
mail_text = build_message "noreply@example.com" "ann@example.org" "Hello" "Hi Ann"

relay_accepts : (send_dialog good_server relay "ann@example.org" "Hello" "Hi Ann").result ≡ ok tt
unfolding send_dialog connect normalize_tls_mode open_session authenticate
relay_accepts = refl

relay_takes :
    delivered good_server (send_dialog good_server relay "ann@example.org" "Hello" "Hi Ann")
    ≡ some mail_text
unfolding send_dialog connect normalize_tls_mode open_session authenticate sent_text
relay_takes = refl

process_one_delivers_example :
    ((process_one service 1 (calm world.state [])).0 ≡ ok tt)
    × ((process_one service 1 (calm world.state [])).1.state.outbox
        ≡ world.state.outbox
          ++ record {
            provider = provider_name relay;
            to_email = "ann@example.org";
            text = mail_text;
          }
            ∷ [])
    × (status_of 1 (process_one service 1 (calm world.state [])).1.state.db ≡ some sent)
process_one_delivers_example =
    process_one_delivers service 1 (message 1 queued) world.state [] mail_text first-MayBeSent
      default_account relay_accepts relay_takes

-- a relay that refuses every sender, and a service that does not switch
abbrev refusing : Server
refusing = record good_server { on_mail = some "550 no" }

abbrev steady : MessageService
steady = record service { auto_failover_enabled = false }

refuses : IsRefusing relay refusing
unfolding send_dialog connect normalize_tls_mode open_session authenticate
refuses to_email subject body = (_, refl)

rounds_end_example :
    (status_of 1 (rounds steady 1 (refusing ∷ refusing ∷ refusing ∷ []) world.state).db
      ≡ some failed)
    × (rounds steady 1 ((refusing ∷ refusing ∷ refusing ∷ []) ++ good_server ∷ []) world.state
        ≡ rounds steady 1 (refusing ∷ refusing ∷ refusing ∷ []) world.state)
unfolding next_attempt_no last_attempt_no
rounds_end_example =
    rounds_end steady 1 (message 1 queued) world.state (refusing ∷ refusing ∷ refusing ∷ [])
      (good_server ∷ []) first-MayBeSent default_account refl refl refl
      (refuses, (refuses, (refuses, tt))) (omega arith) (omega arith)

queue_message_admits_example :
    AtMostOneRow service 1 "bob@example.org" world.state
      (queue_message service 1 "noreply@example.com" "bob@example.org" "Hello" "Hi"
        world).1.state.db.messages
queue_message_admits_example =
    queue_message_admits service 1 "noreply@example.com" "bob@example.org" "Hello" "Hi" world

transition_message_status_once_example :
    (transition_message_status 1 queued sending 8
      (transition_message_status 1 queued sending 7 tables).1).0
    ≡ false
transition_message_status_once_example =
    transition_message_status_once 1 queued sending sending 7 8 tables refl

insert_attempt-next_attempt_no_example :
    (insert_attempt 1 (next_attempt_no 1 tables) "smtp" "250" true 9 tables).0 ≡ ok tt
insert_attempt-next_attempt_no_example = insert_attempt-next_attempt_no 1 "smtp" "250" true 9 tables

-- webhook events

abbrev event : WebhookEvent
event = record {
  id = 0;
  workspace_id = 1;
  event_type = "complaint";
  identity_key = "v1:k";
  email = "Ann@Example.org";
  reason = "";
  status = processing;
  attempt_count = 0;
  last_error = "";
  raw_payload = "{}";
  created_at = 0;
}

process_event_atomic_again_example :
    process_event_atomic event 8 (process_event_atomic event 7 tables).1
    ≡ process_event_atomic event 7 tables
process_event_atomic_again_example = process_event_atomic_again event event 7 8 tables refl refl

abbrev letter : WebhookEvent
letter = record event { id = 4; status = dead_letter; attempt_count = 1 }

abbrev letters : Db
letters = record tables { webhooks = letter ∷ [] }

replay_event_atomic_once_example :
    replay_event_atomic 1 4 (replay_event_atomic 1 4 letters).1
    ≡ (none, (replay_event_atomic 1 4 letters).1)
unfolding replay_event_atomic find apply_event_tx trim_space trim_right trim_left is_space
    classify_bounce
replay_event_atomic_once_example =
    replay_event_atomic_once 1 4 letters (record letter { status = replayed; attempt_count = 2 })
      refl refl

is_suppressed-apply_event_tx_example :
    is_suppressed 1 "ann@example.org" (apply_event_tx event tables).1 ≡ (
      (suppresses event && concerns event 1 "ann@example.org")
      || is_suppressed 1 "ann@example.org" tables)
is_suppressed-apply_event_tx_example = is_suppressed-apply_event_tx event 1 "ann@example.org" tables

replay_dead_letters-Tallies_example :
    Post
      (ReplayTallied (to_replay 1 (normalize_positive_ids (pos 4 ∷ [])) (pos 20) tables))
      (λ _. Unit {0})
      (replay_dead_letters service 1 (pos 4 ∷ []) (pos 20) world).0
replay_dead_letters-Tallies_example =
    replay_dead_letters-Tallies service 1 (pos 4 ∷ []) (pos 20) world

-- the SMTP accounts

empty-IsConsistent : IsConsistent Defs.empty
unfolding count_if any
empty-IsConsistent = record {
  one_key = λ ws name. omega arith;
  one_active = λ ws. omega arith;
  some_active = λ ws h. absurd cc;
}

abbrev accounts : Db
accounts = upsert_account 1 "backup" "sealed 2" 6 (upsert_account 1 "main" "sealed 1" 5 Defs.empty)

accounts-IsConsistent : IsConsistent accounts
accounts-IsConsistent =
    upsert_account-IsConsistent 1 "backup" "sealed 2" 6
      (upsert_account 1 "main" "sealed 1" 5 Defs.empty)
      (upsert_account-IsConsistent 1 "main" "sealed 1" 5 Defs.empty empty-IsConsistent)

set_active_account-IsConsistent_example : IsConsistent (set_active_account 1 "backup" 8 accounts).1
set_active_account-IsConsistent_example =
    set_active_account-IsConsistent 1 "backup" 8 accounts accounts-IsConsistent

-- the queue

abbrev waiting : RedisQueue
waiting = record {
  ready = 7 ∷ 8 ∷ [];
  retry = record { score = 3; id = 9 } ∷ record { score = 50; id = 4 } ∷ [];
  last = none;
}

pop_next_fair_example :
    let (first, q') = pop_next 10 waiting in
    let second = (pop_next 11 q').0 in
    (first ≡ some 9) × (second ≡ some 7) ⊎ (first ≡ some 7) × (second ≡ some 9)
pop_next_fair_example = pop_next_fair 10 11 7 9 (8 ∷ []) waiting (omega arith) refl refl

abbrev operations : List Operation
operations = push 7 ∷ delay 4 80000000 ∷ pop 10 ∷ pop 90 ∷ pop 91 ∷ []

run_all_refines_example :
    Runs
      (work_of Queue.empty)
      (run_all operations Queue.empty).0
      (work_of (run_all operations Queue.empty).1)
run_all_refines_example = run_all_refines operations

-- the relay's dialog

send_dialog-protects_example :
    (protects false (send_dialog good_server relay "ann@example.org" "Hello" "Hi").trace ≡ true)
    × (protects false (validate_dialog good_server relay).trace ≡ true)
send_dialog-protects_example = send_dialog-protects good_server relay "ann@example.org" "Hello" "Hi"

build_message_adds_header_example :
    build_message "a@b" "c@d" ("Hello" +s crlf +s "Bcc" +s ": " +s "e@f") "Hi"
    ≡ render
        (("From", "a@b")
          ∷ ("To", "c@d")
          ∷ ("Subject", "Hello")
          ∷ ("Bcc", "e@f")
          ∷ ("MIME-Version", "1.0")
          ∷ ("Content-Type", "text/plain; charset=UTF-8")
          ∷ [])
        "Hi"
build_message_adds_header_example = build_message_adds_header "a@b" "c@d" "Hello" "Bcc" "e@f" "Hi"

-- the service's other operations

retry_messages-IsTallied_example :
    Post
      (IsTallied (wanted 1 (normalize_positive_ids (pos 1 ∷ negsuc 0 ∷ [])) (pos 20) tables))
      (λ e.
        (normalize_positive_ids (pos 1 ∷ negsuc 0 ∷ []) ≡ [])
        × ((query (λ db. ok (latest_failed 1 (pos 20) db)) world).0 ≡ err e))
      (retry_messages service 1 (pos 1 ∷ negsuc 0 ∷ []) (pos 20) world).0
retry_messages-IsTallied_example =
    retry_messages-IsTallied service 1 (pos 1 ∷ negsuc 0 ∷ []) (pos 20) world

recover_queue-PutBack_example :
    PutBack
      (positive_or 100 (pos 5))
      world.state
      (recover_queue service (pos 30) (pos 900) (pos 5) world)
recover_queue-PutBack_example = recover_queue-PutBack service (pos 30) (pos 900) (pos 5) world

backoff_duration_overflows_example :
    (backoff_duration (0 + 64) ≡ 0) × (webhook_backoff_duration (0 + 64) ≡ 0)
backoff_duration_overflows_example = backoff_duration_overflows 0

-- the sign-in

abbrev limiter : LoginRateLimiter
limiter = record { connected = true; max_failures = pos 3; failure_window = 900; lockout = 600 }

abbrev nobody : LoginState
nobody = record { fails = λ ip. none; blocks = λ ip. none }

-- the API keys

abbrev pub operator : Principal
operator = record { user_id = pos 7; workspace_id = pos 2; role = "operator"; global = false }

abbrev admin : Principal
admin = record { user_id = pos 0; workspace_id = pos 0; role = "admin"; global = true }

own_granted : workspace (some operator) (pos 0) ≡ granted (pos 2)
unfolding workspace is_principal
own_granted = refl

workspace_own_example : pos 2 ≡ operator.workspace_id
workspace_own_example = workspace_own operator (pos 0) (pos 2) refl own_granted

admin_passed : api_key_middleware (λ t. t) "root-key" "" none " root-key" ≡ passed admin
unfolding api_key_middleware trim_space trim_left trim_right is_space
admin_passed = refl

api_key_middleware-IsInstanceKey_example : IsInstanceKey (trim_space " root-key") "root-key" ""
api_key_middleware-IsInstanceKey_example =
    api_key_middleware-IsInstanceKey (λ t. t) "root-key" "" none " root-key" admin admin_passed refl
