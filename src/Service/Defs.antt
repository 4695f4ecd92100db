-- ===== src/Service/Defs.antt =====
-- MessageService and its constructor, and the calls that several of its methods make.
use maild.Base.{ℕ, ◌*◌, Bool, Option, none, some, List, String, if◌then◌else◌}
use maild.Base.Int.{ℤ, pos, ltb_ℤ, leb_ℤ, pos_part}
use maild.Domain.{SmtpAccount}
use maild.Store.Defs.{Result, ok, err, other}
use maild.Store.Messages.{insert_metering_event}
use maild.Store.Accounts.{get_account_payload}
use maild.Queue
use maild.Smtp.{Credentials}
use maild.World.{Act, pure, raise, ◌>>=◌, ignore, query, exec, redis}

-- the queue: a nil interface, one that can only enqueue, or one that is a RetryScheduler too
pub data QueueKind : Type 0 where
  absent plain scheduling : QueueKind

-- Sealer.Seal after json.Marshal, and json.Unmarshal after Sealer.Open
pub record Sealer : Type 0 where
  pub seal : SmtpAccount → Result String
  pub unseal : String → Result SmtpAccount

pub record MessageService : Type 0 where
  pub queue : QueueKind
  pub recovery_store : Bool  -- s.store is a MessageRecoveryStore
  pub retry_at_store : Bool  -- s.store is a MessageRetryAtStore
  pub atomic_store : Bool  -- s.store is an AtomicWebhookStore
  pub sealer : Sealer
  pub default_creds : Credentials
  pub limit_workspace : ℤ  -- RedisLimiter.workspacePerHour
  pub limit_domain : ℤ  -- RedisLimiter.recipientDomainPerHour
  pub digest : String → String  -- SHA-256 in hexadecimal
  pub json : List (String × String) → String  -- jsonMetadata: json.Marshal of a map
  pub blocked_recipient_domains : List String
  pub max_attempts : ℕ
  pub webhook_apply_max_attempts : ℕ
  pub default_workspace_rate : ℤ
  pub default_domain_rate : ℤ
  pub auto_failover_enabled : Bool
  pub auto_failover_failures : ℕ
  pub auto_failover_window : ℕ
  pub auto_failover_cooldown : ℕ

-- `if n < least { n = least }`
unfoldable pub at_least : ℕ → ℤ → ℕ
at_least least n = if ltb_ℤ n (pos least) then least else pos_part n

-- `if d <= 0 { d = fallback }`
unfoldable pub positive_or : ℕ → ℤ → ℕ
positive_or fallback d = if leb_ℤ d (pos 0) then fallback else pos_part d

-- one minute in nanoseconds
abbrev pub minute : ℕ
minute = 60000000000

-- the numbers that NewMessageService is given
pub record Settings : Type 0 where
  pub max_attempts : ℤ
  pub webhook_apply_max_attempts : ℤ
  pub auto_failover_failures : ℤ
  pub auto_failover_window : ℤ
  pub auto_failover_cooldown : ℤ

-- NewMessageService; `base` has the values that are passed on as they are
unfoldable pub new_message_service : Settings → MessageService → MessageService
unfolding at_least positive_or
new_message_service c base = record base {
  max_attempts = at_least 1 c.max_attempts;
  webhook_apply_max_attempts = at_least 1 c.webhook_apply_max_attempts;
  auto_failover_failures = at_least 1 c.auto_failover_failures;
  auto_failover_window = positive_or (5 * minute) c.auto_failover_window;
  auto_failover_cooldown = at_least 0 c.auto_failover_cooldown;
}

-- s.queue.Enqueue; on a nil interface the call panics
abbrev pub enqueue_on : QueueKind → ℕ → Act (Unit {0})
enqueue_on absent id = raise (other "invalid memory address or nil pointer dereference")
enqueue_on _ id = redis (λ s. (tt, record s { queue = Queue.enqueue id s.queue }))

unfoldable pub enqueue : MessageService → ℕ → Act (Unit {0})
enqueue s id = enqueue_on s.queue id

-- `_ = s.store.InsertMeteringEvent(…)`
unfoldable pub meter : ℕ → ℕ → String → String → Act (Unit {0})
meter ws id event_type metadata = ignore (
    exec (λ now db. (
      ok tt,
      insert_metering_event
          (record {
            workspace_id = ws;
            message_id = id;
            event_type = event_type;
            quantity = 1;
            metadata = metadata;
            created_at = 0;
          })
          now db,
    )))

abbrev pub account_creds : SmtpAccount → Credentials
account_creds a = record {
  host = a.host;
  port = a.port;
  username = a.username;
  password = a.password;
  sender = a.from_email;
  tls_mode = a.tls_mode;
}

abbrev pub lift : {A : Type 0} → Result A → Act A
lift (ok a) = pure a
lift (err e) = raise e

abbrev pub unsealed : MessageService → Option String → Act Credentials
unsealed s none = pure s.default_creds
unsealed s (some payload) = lift (s.sealer.unseal payload) >>= λ a. pure (account_creds a)

-- resolveCredentials
unfoldable pub resolve_credentials : MessageService → ℕ → Act Credentials
resolve_credentials s ws = do
  payload ← query (λ db. ok (get_account_payload ws db))
  unsealed s payload
