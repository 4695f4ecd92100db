-- ===== src/Domain.antt =====
-- internal/domain: the records that the store, the service and the API share.
-- An int64 key of the database is a natural number, an instant a number of nanoseconds (the zero
-- time is 0), and a status, which the code spells as a text, a constructor.
use maild.Base.{ℕ, Bool, true, false, Option, List, String}
use maild.Base.Int.{ℤ}

-- Message.Status
pub data Status : Type 0 where
  queued sending sent failed suppressed unknown : Status

pub Status-discrete : Discrete Status
Status-discrete = hlevel

-- `==` on statuses
abbrev pub same_status : Status → Status → Bool
same_status queued queued = true
same_status sending sending = true
same_status sent sent = true
same_status failed failed = true
same_status suppressed suppressed = true
same_status unknown unknown = true
same_status _ _ = false

pub record Message : Type 0 where
  pub id : ℕ
  pub workspace_id : ℕ
  pub from_email : String
  pub to_email : String
  pub subject : String
  pub body_text : String
  pub status : Status
  pub scheduled_at : Option ℕ
  pub created_at : ℕ
  pub updated_at : ℕ

pub record MessageAttempt : Type 0 where
  pub message_id : ℕ
  pub attempt_no : ℕ
  pub smtp_provider : String
  pub smtp_response : String
  pub success : Bool
  pub created_at : ℕ

-- WebhookEvent.Status
pub data EventStatus : Type 0 where
  processing applied dead_letter replayed : EventStatus

abbrev pub is_dead_letter : EventStatus → Bool
is_dead_letter dead_letter = true
is_dead_letter _ = false

abbrev pub is_replayed : EventStatus → Bool
is_replayed replayed = true
is_replayed _ = false

pub record WebhookEvent : Type 0 where
  pub id : ℕ
  pub workspace_id : ℕ
  pub event_type : String
  pub identity_key : String
  pub email : String
  pub reason : String
  pub status : EventStatus
  pub attempt_count : ℕ
  pub last_error : String
  pub raw_payload : String
  pub created_at : ℕ

pub record MeteringEvent : Type 0 where
  pub workspace_id : ℕ
  pub message_id : ℕ
  pub event_type : String
  pub quantity : ℕ
  pub metadata : String
  pub created_at : ℕ

pub record SmtpAccount : Type 0 where
  pub workspace_id : ℕ
  pub name : String
  pub host : String
  pub port : ℕ
  pub username : String
  pub password : String
  pub from_email : String
  pub tls_mode : String

pub record SmtpAccountSummary : Type 0 where
  pub workspace_id : ℕ
  pub name : String
  pub active : Bool
  pub updated_at : ℕ

pub record WorkspacePolicy : Type 0 where
  pub workspace_id : ℕ
  pub rate_limit_workspace_per_hour : ℤ
  pub rate_limit_domain_per_hour : ℤ
  pub blocked_recipient_domains : List String
