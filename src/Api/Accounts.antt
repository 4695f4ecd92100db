-- ===== src/Api/Accounts.antt =====
-- internal/api/http.go: the handlers of SMTP accounts and of the workspace policy.

use maild.Base.{
  Bool, false, ◌&&◌, ◌||◌, not, Option, none, some, List, String, str_eq, if◌then◌else◌,
}
use maild.Base.Int.{ℤ, pos, pos_part}
use maild.ApiKey.{Principal, eq_ℤ}
use maild.Text.{trim_space, is_blank}
use maild.Sanitize.{smtp_error}
use maild.Domain.{SmtpAccount}
use maild.Store.Defs.{Result, ok, err}
use maild.Smtp.{normalize_tls_mode}
use maild.World.{Act, handle}
use maild.Service.Defs.{MessageService}
use maild.Service.Process.{error_text}
use maild.Service.Policy.{workspace_policy, upsert_workspace_policy}
use maild.Service.Accounts.{
  upsert_smtp_account, set_active_smtp_account, smtp_accounts, validate_smtp_account,
}
use maild.Api.Defs.{
  Response, saved, accounts_body, policy_body, respond, fail, resolve_workspace, Query,
  workspace_from_query, only, decoded, calling,
}

-- upsertSMTPAccountRequest
pub record AccountRequest : Type 0 where
  pub workspace_id : ℤ
  pub name : String
  pub host : String
  pub port : ℤ
  pub username : String
  pub password : String
  pub from_email : String
  pub tls_mode : String

abbrev pub account_of : AccountRequest → ℤ → String → SmtpAccount
account_of req ws mode = record {
  workspace_id = pos_part ws;
  name = if is_blank req.name then "default" else req.name;
  host = req.host;
  port = pos_part req.port;
  username = req.username;
  password = req.password;
  from_email = req.from_email;
  tls_mode = mode;
}

abbrev pub put_account : MessageService → AccountRequest → ℤ → Option String → Act Response
put_account s req ws none = fail 400 "unsupported SMTP TLS mode"
put_account s req ws (some mode) =
    if str_eq mode "none" && (not (str_eq req.username "") || not (str_eq req.password ""))
    then fail 400 "SMTP authentication requires TLS"
    else calling (upsert_smtp_account s (account_of req ws mode))
        (λ _. respond 201 (saved ws (account_of req ws mode).name "saved_encrypted"))

-- upsertSMTPAccount; a negative port, which no relay has, stands as 0 in the account
unfoldable pub upsert_smtp_account_handler :
    MessageService → Option Principal → String → Option AccountRequest → Act Response
upsert_smtp_account_handler s context method body = only "POST" method (
    decoded body (λ req. resolve_workspace context req.workspace_id (λ ws.
      if is_blank req.host || eq_ℤ req.port (pos 0) || is_blank req.from_email
      then fail 400 "host, port, and from_email are required"
      else put_account s req ws (normalize_tls_mode req.tls_mode))))

-- activateSMTPAccountRequest
pub record ActivateRequest : Type 0 where
  pub workspace_id : ℤ
  pub name : String

abbrev pub activate_reply : ℤ → String → Result (Unit {0}) → Act Response
activate_reply ws name (ok _) = respond 200 (saved ws name "active")
activate_reply ws name (err _) = fail 400 "internal server error"

-- activateSMTPAccount
unfoldable pub activate_smtp_account_handler :
    Option Principal → String → Option ActivateRequest → Act Response
activate_smtp_account_handler context method body = only "POST" method (
    decoded body (λ req. resolve_workspace context req.workspace_id (λ ws.
      if str_eq (trim_space req.name) ""
      then fail 400 "name is required"
      else handle (set_active_smtp_account (pos_part ws) (trim_space req.name))
          (activate_reply ws (trim_space req.name)))))

-- listSMTPAccounts
unfoldable pub list_smtp_accounts_handler : Option Principal → String → Query → Act Response
list_smtp_accounts_handler context method q = only "GET" method (
    workspace_from_query context q (λ ws.
      calling (smtp_accounts (pos_part ws)) (λ accounts. respond 200 (accounts_body ws accounts))))

abbrev pub validate_reply : ℤ → Result String → Act Response
validate_reply ws (ok provider) = respond 200 (saved ws provider "valid")
validate_reply ws (err e) = fail 400 (smtp_error (error_text e))

-- validateSMTPAccount; an error that is not the relay's has an empty text
unfoldable pub validate_smtp_account_handler :
    MessageService → Option Principal → String → Option ℤ → Act Response
validate_smtp_account_handler s context method body = only "POST" method (
    decoded body (λ requested.
      resolve_workspace context requested
        (λ ws. handle (validate_smtp_account s (pos_part ws)) (validate_reply ws))))

-- upsertWorkspacePolicyRequest
pub record PolicyRequest : Type 0 where
  pub workspace_id : ℤ
  pub rate_limit_workspace_per_hour : ℤ
  pub rate_limit_domain_per_hour : ℤ
  pub blocked_recipient_domains : List String

-- RoleFromContext gives the role also of a principal that is not valid, and its answer is not checked
abbrev pub is_admin : Option Principal → Bool
is_admin none = false
is_admin (some p) = str_eq p.role "admin"

abbrev pub show_policy : MessageService → ℤ → Act Response
show_policy s ws =
    calling (workspace_policy s (pos_part ws)) (λ policy. respond 200 (policy_body policy))

abbrev pub put_policy_request : MessageService → Option Principal → PolicyRequest → Act Response
put_policy_request s context req = resolve_workspace context req.workspace_id (λ ws.
    calling
      (upsert_workspace_policy s (record {
        workspace_id = pos_part ws;
        rate_limit_workspace_per_hour = req.rate_limit_workspace_per_hour;
        rate_limit_domain_per_hour = req.rate_limit_domain_per_hour;
        blocked_recipient_domains = req.blocked_recipient_domains;
      }))
      (λ _. show_policy s ws))

-- workspacePolicy
unfoldable pub workspace_policy_handler :
    MessageService → Option Principal → String → Query → Option PolicyRequest → Act Response
workspace_policy_handler s context method q body =
    if str_eq method "GET"
    then workspace_from_query context q (show_policy s)
    else if str_eq method "POST"
    then if is_admin context
      then decoded body (put_policy_request s context)
      else fail 403 "forbidden"
    else fail 405 "method not allowed"
