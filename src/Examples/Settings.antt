-- ===== src/Examples/Settings.antt =====
-- Concrete runs of the configuration, the sessions, the checks of domains and the saved accounts.

use maild.Base.{
  ◌≡◌, ◌≢◌, ◌↔◌, refl, true, false, none, some, inr, List, [], ◌∷◌, String, arith, str_eq,
  if◌then◌else◌, any, ◌*◌,
}
use maild.Base.Int.{pos}
use maild.Text.{trim_space, trim_left, trim_right, is_space, to_lower, lower_char, split, mem_text}
use maild.Domain.{SmtpAccount}
use maild.Store.Defs.{ok, err, other}
use maild.Store.Accounts.{of_workspace}
use maild.Smtp.{good_server, validate_dialog, normalize_tls_mode}
use maild.Service.Defs.{MessageService, account_creds, resolve_credentials}
use maild.Service.Process.Claims.{calm}
use maild.Service.Accounts.{checked_account, upsert_smtp_account}
use maild.Service.Accounts.Laws.{resolve_credentials-upsert_smtp_account}
use maild.ApiKey.{
  api_key_middleware, resolve_role, is_principal, valid_role, Lookup, found, no_rows, passed,
  Principal,
}
use maild.ApiKey.Laws.{api_key_middleware_padded}
use maild.Config.{
  Library, Environment, load, get_env, get_parsed, parse_domain_set, domain_set,
  default_credentials,
}
use maild.Config.Validate.{
  first_error, has_separator, production_required, production_defaults, key_checks, service_checks,
  webhook_checks, failover_checks, login_checks, environment_checks, validate,
}
use maild.Config.Uses.{load_required, validate-api_key_middleware, validate-validate_dialog}
use maild.DomainCheck.{Answer, records, not_found, Readiness, check_domain, find_record}
use maild.DomainCheck.Laws.{IsPublished, check_domain-IsPublished}
use maild.Session.{done, Sessions, create_session, get_session, nanos}
use maild.Session.Laws.{all_fine, Refuses, get_session-ended, get_session-create_session}
use maild.Examples.{service, world}

-- a library that reads no number, and what a production server is given
abbrev library : Library
library = record {
  parse_duration = λ t. none;
  atoi = λ t. if str_eq t "587" then some (pos 587) else none;
  parse_bool = λ t. none;
  encode = λ t. t;
}

abbrev given : List (String × String) → Environment
given [] key = none
given ((k, v) ∷ rest) key = if str_eq k key then some v else given rest key

abbrev production : Environment
production = given (
    ("APP_ENV", "production")
    ∷ ("ADMIN_API_KEY", "a-secret")
    ∷ ("OPERATOR_API_KEY", "o-secret")
    ∷ ("ENCRYPTION_KEY_BASE64", "c2VjcmV0")
    ∷ ("POSTGRES_DSN", "postgres://db")
    ∷ ("REDIS_ADDR", "redis:6379")
    ∷ ("SMTP_HOST", "smtp.example.com")
    ∷ ("SMTP_PORT", "587")
    ∷ ("SMTP_FROM", "noreply@example.com")
    ∷ [])

production_valid : validate library (load library production) ≡ none
unfolding validate load get_env get_parsed parse_domain_set domain_set first_error has_separator
    production_required production_defaults key_checks service_checks webhook_checks failover_checks
    login_checks environment_checks trim_space trim_left trim_right is_space to_lower lower_char
    split mem_text
production_valid = refl

load_required_example : production "REDIS_ADDR" ≢ none
unfolding mem_text to_lower trim_space trim_right trim_left get_env is_space lower_char
load_required_example = load_required library production "REDIS_ADDR" refl refl production_valid

trims : (trim_space "a-secret" ≡ "a-secret") × (trim_space "o-secret" ≡ "o-secret")
unfolding trim_space trim_left trim_right is_space
trims = (refl, refl)

validate-api_key_middleware_example :
    api_key_middleware (λ t. t) "a-secret" "o-secret" none "o-secret"
    ≡ passed (record { user_id = pos 0; workspace_id = pos 0; role = "operator"; global = true })
unfolding load get_env get_parsed
validate-api_key_middleware_example =
    validate-api_key_middleware library (load library production) (λ t. t) none "o-secret"
      "operator" production_valid (inr (refl, refl)) trims.1

validate-validate_dialog_example :
    (validate_dialog good_server (default_credentials (load library production))).result ≡ ok tt
validate-validate_dialog_example =
    validate-validate_dialog library (load library production) production_valid

padded : (trim_space " key" ≢ " key") × (trim_space "key " ≢ "key ")
unfolding trim_space trim_left trim_right is_space
padded = (λ e. absurd (cc e), λ e. absurd (cc e))

abbrev stored : Principal
stored = record { user_id = pos 7; workspace_id = pos 2; role = "operator"; global = false }

abbrev known : String → Lookup
known digest =
    if str_eq digest "user-key"
    then found (record { user_id = pos 7; workspace_id = pos 2; role = "operator" })
    else no_rows

stored_passed : api_key_middleware (λ t. t) " key" "key " (some known) "user-key" ≡ passed stored
unfolding api_key_middleware resolve_role is_principal valid_role trim_space trim_left trim_right
    is_space
stored_passed = refl

api_key_middleware_padded_example : stored.global ≡ false
api_key_middleware_padded_example =
    api_key_middleware_padded (λ t. t) " key" "key " (some known) "user-key" stored padded.0
      padded.1 stored_passed

-- an account, and a sealer that opens what it sealed

abbrev account : SmtpAccount
account = record {
  workspace_id = 1;
  name = "main";
  host = "smtp.example.org";
  port = 465;
  username = "ann";
  password = "secret";
  from_email = "ann@example.org";
  tls_mode = "implicit_tls";
}

abbrev keeper : MessageService
keeper = record service {
  sealer = record {
    seal = λ a. ok "sealed";
    unseal = λ t. if str_eq t "sealed" then ok account else err (other t);
  };
}

account_checked : checked_account account (normalize_tls_mode account.tls_mode) ≡ ok account
unfolding checked_account normalize_tls_mode trim_space trim_left trim_right is_space to_lower
    lower_char
account_checked = refl

no_accounts : any (of_workspace account.workspace_id) world.state.db.accounts ≡ false
unfolding any
no_accounts = refl

resolve_credentials-upsert_smtp_account_example :
    (resolve_credentials keeper account.workspace_id
      (upsert_smtp_account keeper account (calm world.state [])).1).0
    ≡ ok (account_creds account)
resolve_credentials-upsert_smtp_account_example =
    resolve_credentials-upsert_smtp_account keeper account account "sealed" world.state []
      no_accounts account_checked refl refl

-- a domain with two of the three records

abbrev zone : String → Answer
zone name =
    if str_eq name "example.org"
    then records ("google-site=1" ∷ "v=spf1 mx -all" ∷ [])
    else if str_eq name "mail._domainkey.example.org"
    then records ("k=rsa; v=DKIM1; p=MIG" ∷ [])
    else not_found

abbrev readiness : Readiness
readiness = record {
  domain = "example.org";
  dkim_selector = "mail";
  spf_valid = true;
  dkim_valid = true;
  dmarc_valid = false;
  ready = false;
}

zone_checked : check_domain zone "Example.org" "mail" ≡ ok readiness
unfolding check_domain find_record any trim_space trim_left trim_right is_space to_lower lower_char
zone_checked = refl

check_domain-IsPublished_example : (readiness.ready ≡ true) ↔ IsPublished zone "Example.org" "mail"
check_domain-IsPublished_example =
    check_domain-IsPublished zone "Example.org" "mail" readiness zone_checked refl

-- a session of an hour

abbrev no_sessions : Sessions
no_sessions id = none

get_session-ended_example :
    Refuses
      (get_session all_fine "s1"
        (3603 * nanos)
        (create_session all_fine "s1" (pos 7) (3600 * nanos) (2 * nanos) no_sessions).1).0
get_session-ended_example =
    get_session-ended all_fine all_fine "s1" (pos 7) (3600 * nanos) (2 * nanos) (3603 * nanos)
      no_sessions refl refl

get_session-create_session_example :
    (get_session all_fine "s1"
      (3601 * nanos)
      (create_session all_fine "s1" (pos 7) (3600 * nanos) (2 * nanos) no_sessions).1).0
    ≡ done (pos 7)
get_session-create_session_example =
    get_session-create_session "s1" (pos 7) 3600 (2 * nanos) (3601 * nanos) no_sessions
      (omega arith) (omega arith)
