-- ===== src/Store/Defs.antt =====
-- The tables of internal/migrate/sql, and the errors of the program.
use maild.Base.{ℕ, Bool, List, [], String}
use maild.Domain.{Message, MessageAttempt, WebhookEvent, MeteringEvent, WorkspacePolicy}

-- The errors that the code tells apart.
pub data Err : Type 0 where
  db_error redis_error message_not_found queue_unavailable claim_lost bad_request : Err
  blocked_recipient_domain account_not_found conflict no_rows : Err
  rate_limited smtp_error other : String → Err
  joined : Err → Err → Err

-- Go's `(T, error)`
pub data Result {ℓ} (A : Type ℓ) : Type ℓ where
  ok : A → Result A
  err : Err → Result A

-- a row of `suppressions` or `unsubscribes`
pub record Recipient : Type 0 where
  pub workspace_id : ℕ
  pub email : String
  pub reason : String

-- a row of `smtp_accounts`
pub record Account : Type 0 where
  pub workspace_id : ℕ
  pub name : String
  pub payload : String
  pub active : Bool
  pub updated_at : ℕ

-- a row of `domains`
pub record VerifiedDomain : Type 0 where
  pub workspace_id : ℕ
  pub domain : String
  pub verified : Bool

-- a row of `workspace_policies`: the blocked domains are one text
pub record PolicyRow : Type 0 where
  pub policy : WorkspacePolicy
  pub blocked : String

pub record Db : Type 0 where
  pub messages : List Message
  pub next_message_id : ℕ
  pub attempts : List MessageAttempt
  pub suppressions : List Recipient
  pub unsubscribes : List Recipient
  pub domains : List VerifiedDomain
  pub accounts : List Account
  pub policies : List PolicyRow
  pub metering : List MeteringEvent
  pub webhooks : List WebhookEvent
  pub next_webhook_id : ℕ

-- empty tables; the sequences start at 1
abbrev pub empty : Db
empty = record {
  messages = [];
  next_message_id = 1;
  attempts = [];
  suppressions = [];
  unsubscribes = [];
  domains = [];
  accounts = [];
  policies = [];
  metering = [];
  webhooks = [];
  next_webhook_id = 1;
}
