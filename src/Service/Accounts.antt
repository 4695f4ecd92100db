-- ===== src/Service/Accounts.antt =====
-- internal/service/message_service.go: the methods on SMTP accounts, and MessageTimeline.
pub mod Laws
use maild.Base.{ℕ, ◌&&◌, ◌||◌, not, Option, none, some, List, String, str_eq, if◌then◌else◌}
use maild.Domain.{SmtpAccount, SmtpAccountSummary, Message, MessageAttempt}
use maild.Store.Defs.{other, Result, ok, err}
use maild.Store.Accounts.{has_account, put_account, set_active_account, list_accounts}
use maild.Store.Messages.{get_message}
use maild.Store.Attempts.{list_message_attempts}
use maild.Smtp.{Credentials, normalize_tls_mode, validate_dialog, provider_name}
use maild.World.{Act, pure, ◌>>=◌, ◌>>◌, query, exec, next_server, later_servers}
use maild.Service.Defs.{MessageService, lift, resolve_credentials}

-- the account that is sealed: its mode is one of the three, and there is no login without TLS
unfoldable pub checked_account : SmtpAccount → Option String → Result SmtpAccount
checked_account account none = err (other "unsupported SMTP TLS mode")
checked_account account (some mode) =
    if str_eq mode "none" && (not (str_eq account.username "") || not (str_eq account.password ""))
    then err (other "SMTP authentication requires TLS")
    else ok (record account { tls_mode = mode })

-- Seal, and the two statements of UpsertSMTPAccountEncrypted
unfoldable pub store_sealed : MessageService → SmtpAccount → SmtpAccount → Act (Unit {0})
store_sealed s account checked = do
  payload ← lift (s.sealer.seal checked)
  has_any ← query (λ db. ok (has_account account.workspace_id db))
  exec (λ now db.
      (ok tt, put_account account.workspace_id account.name payload (not has_any) now db))

-- UpsertSMTPAccount; json.Marshal of the account is a part of `seal`
unfoldable pub upsert_smtp_account : MessageService → SmtpAccount → Act (Unit {0})
unfolding store_sealed
upsert_smtp_account s account =
    lift (checked_account account (normalize_tls_mode account.tls_mode)) >>= λ checked.
    store_sealed s account checked

-- SetActiveSMTPAccount
unfoldable pub set_active_smtp_account : ℕ → String → Act (Unit {0})
set_active_smtp_account ws name = exec (set_active_account ws name)

-- SMTPAccounts
unfoldable pub smtp_accounts : ℕ → Act (List SmtpAccountSummary)
smtp_accounts ws = query (λ db. ok (list_accounts ws db))

-- Client.Validate with the next relay
unfoldable pub validate_with : Credentials → Act (Unit {0})
validate_with creds w = (
  (validate_dialog (next_server w.servers) creds).result,
  record w { servers = later_servers w.servers },
)

-- ValidateSMTPAccount
unfoldable pub validate_smtp_account : MessageService → ℕ → Act String
unfolding validate_with
validate_smtp_account s ws = do
  creds ← resolve_credentials s ws
  validate_with creds
  pure (provider_name creds)

-- MessageTimeline
unfoldable pub message_timeline : ℕ → Act (Message × List MessageAttempt)
message_timeline id = do
  m ← query (get_message id)
  attempts ← query (λ db. ok (list_message_attempts id db))
  pure (m, attempts)
