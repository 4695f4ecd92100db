-- ===== src/Config/Validate.antt =====
-- internal/config/config.go: Validate and validateProductionConfig. The checks stand in the order of
-- the code, each with the text of its error; the first one that applies is the error.
use Prim.Native.Char.{code}
use maild.Base.{
  Bool, false, ◌&&◌, ◌||◌, not, Option, none, some, List, [], ◌∷◌, ◌++◌, String, ◌==◌, str_eq,
  starts_with, if◌then◌else◌,
}
use maild.Base.Int.{ℤ, pos, ltb_ℤ, leb_ℤ}
use maild.ApiKey.{eq_ℤ}
use maild.Text.{normalize, is_blank, mem_text}
use maild.Config.{Library, Config, default_dsn, default_encryption_key}

-- the error of the first test that holds
unfoldable pub first_error : List (Bool × String) → Option String
first_error [] = none
first_error ((bad, text) ∷ checks) = if bad then some text else first_error checks

-- strings.ContainsAny(path, "?# \t\n")
unfoldable pub has_separator : String → Bool
has_separator String.[] = false
has_separator (String.◌∷◌ c s) =
    let n = code c in (n == b'?' || n == b'#' || n == 32 || n == 9 || n == 10) || has_separator s

-- `n < 1`
abbrev pub below_one : ℤ → Bool
below_one n = ltb_ℤ n (pos 1)

-- `d <= 0`
abbrev pub not_positive : ℤ → Bool
not_positive d = leb_ℤ d (pos 0)

-- validateProductionConfig: what must be given
unfoldable pub production_required : Config → List (Bool × String)
production_required c =
    (is_blank c.admin_api_key, "ADMIN_API_KEY is required when APP_ENV=production")
    ∷ (is_blank c.operator_api_key, "OPERATOR_API_KEY is required when APP_ENV=production")
    ∷ (is_blank c.encryption_key_b64, "ENCRYPTION_KEY_BASE64 is required when APP_ENV=production")
    ∷ (is_blank c.postgres_dsn, "POSTGRES_DSN is required when APP_ENV=production")
    ∷ (is_blank c.redis_addr, "REDIS_ADDR is required when APP_ENV=production")
    ∷ (is_blank c.smtp_host, "SMTP_HOST is required when APP_ENV=production")
    ∷ (below_one c.smtp_port, "SMTP_PORT must be >= 1 when APP_ENV=production")
    ∷ (is_blank c.smtp_from, "SMTP_FROM is required when APP_ENV=production")
    ∷ []

-- validateProductionConfig: what must not be the development's value
unfoldable pub production_defaults : Library → Config → List (Bool × String)
production_defaults lib c =
    (
      str_eq c.admin_api_key "change-me-admin",
      "ADMIN_API_KEY must not use development default when APP_ENV=production",
    )
    ∷ (
      str_eq c.operator_api_key "change-me-operator",
      "OPERATOR_API_KEY must not use development default when APP_ENV=production",
    )
    ∷ (
      str_eq c.encryption_key_b64 (default_encryption_key lib),
      "ENCRYPTION_KEY_BASE64 must not use development default when APP_ENV=production",
    )
    ∷ (
      str_eq c.postgres_dsn default_dsn,
      "POSTGRES_DSN must not use development default when APP_ENV=production",
    )
    ∷ (
      str_eq c.redis_addr "localhost:6379",
      "REDIS_ADDR must not use development default when APP_ENV=production",
    )
    ∷ (
      str_eq c.smtp_host "localhost",
      "SMTP_HOST must not use development default when APP_ENV=production",
    )
    ∷ (
      eq_ℤ c.smtp_port (pos 1025),
      "SMTP_PORT must not use development default when APP_ENV=production",
    )
    ∷ (
      str_eq c.smtp_from "noreply@maild.local",
      "SMTP_FROM must not use development default when APP_ENV=production",
    )
    ∷ []

-- the checks that hold in every environment, from the API keys to the limits
unfoldable pub key_checks : Config → List (Bool × String)
key_checks c =
    (is_blank c.api_key_header, "API_KEY_HEADER must not be empty")
    ∷ (is_blank c.admin_api_key, "ADMIN_API_KEY must not be empty")
    ∷ (is_blank c.operator_api_key, "OPERATOR_API_KEY must not be empty")
    ∷ (
      str_eq c.admin_api_key c.operator_api_key,
      "ADMIN_API_KEY and OPERATOR_API_KEY must be different",
    )
    ∷ (is_blank c.encryption_key_b64, "ENCRYPTION_KEY_BASE64 must not be empty")
    ∷ []

unfoldable pub service_checks : Config → List (Bool × String)
service_checks c =
    (is_blank c.postgres_dsn, "POSTGRES_DSN must not be empty")
    ∷ (is_blank c.redis_addr, "REDIS_ADDR must not be empty")
    ∷ (is_blank c.smtp_host, "SMTP_HOST must not be empty")
    ∷ (below_one c.smtp_port, "SMTP_PORT must be >= 1")
    ∷ (
      not (str_eq c.smtp_tls_mode "starttls")
          && not (str_eq c.smtp_tls_mode "implicit_tls")
          && not (str_eq c.smtp_tls_mode "none"),
      "SMTP_TLS_MODE must be starttls, implicit_tls, or none",
    )
    ∷ (
      str_eq c.smtp_tls_mode "none"
          && (not (str_eq c.smtp_username "") || not (str_eq c.smtp_password "")),
      "SMTP authentication requires SMTP_TLS_MODE=starttls or implicit_tls",
    )
    ∷ (is_blank c.smtp_from, "SMTP_FROM must not be empty")
    ∷ (below_one c.rate_limit_workspace_per_hour, "RATE_LIMIT_WORKSPACE_PER_HOUR must be >= 1")
    ∷ (below_one c.rate_limit_domain_per_hour, "RATE_LIMIT_DOMAIN_PER_HOUR must be >= 1")
    ∷ []

unfoldable pub webhook_checks : Config → List (Bool × String)
webhook_checks c =
    (
      is_blank c.webhook_signing_secret,
      "WEBHOOK_SIGNING_SECRET must not be empty when WEBHOOKS_ENABLED=true",
    )
    ∷ (
      is_blank c.webhook_signature_header,
      "WEBHOOK_SIGNATURE_HEADER must not be empty when WEBHOOKS_ENABLED=true",
    )
    ∷ (
      is_blank c.webhook_timestamp_header,
      "WEBHOOK_TIMESTAMP_HEADER must not be empty when WEBHOOKS_ENABLED=true",
    )
    ∷ (not_positive c.webhook_max_skew, "WEBHOOK_MAX_SKEW must be > 0 when WEBHOOKS_ENABLED=true")
    ∷ (
      below_one c.webhook_apply_max_attempts,
      "WEBHOOK_APPLY_MAX_ATTEMPTS must be >= 1 when WEBHOOKS_ENABLED=true",
    )
    ∷ []

unfoldable pub failover_checks : Config → List (Bool × String)
failover_checks c =
    (
      below_one c.auto_failover_failures,
      "AUTO_FAILOVER_FAILURE_THRESHOLD must be >= 1 when AUTO_FAILOVER_ENABLED=true",
    )
    ∷ (
      not_positive c.auto_failover_window,
      "AUTO_FAILOVER_WINDOW must be > 0 when AUTO_FAILOVER_ENABLED=true",
    )
    ∷ (
      ltb_ℤ c.auto_failover_cooldown (pos 0),
      "AUTO_FAILOVER_COOLDOWN must be >= 0 when AUTO_FAILOVER_ENABLED=true",
    )
    ∷ []

abbrev pub app_routes : List String
app_routes =
    "/" ∷ "/signup" ∷ "/support" ∷ "/dashboard" ∷ "/healthz" ∷ "/readyz" ∷ "/me" ∷ "/logout"
    ∷ "/static" ∷ []

unfoldable pub login_checks : Config → List (Bool × String)
login_checks c =
    (is_blank c.login_path, "APP_LOGIN_PATH must not be empty")
    ∷ (not (starts_with c.login_path "/"), "APP_LOGIN_PATH must start with '/'")
    ∷ (has_separator c.login_path, "APP_LOGIN_PATH must not contain spaces, '?', '#', or tabs")
    ∷ (
      mem_text c.login_path app_routes || starts_with c.login_path "/static",
      "APP_LOGIN_PATH conflicts with a reserved route",
    )
    ∷ (below_one c.login_max_failures, "APP_LOGIN_MAX_FAILURES must be >= 1")
    ∷ (not_positive c.login_failure_window, "APP_LOGIN_FAILURE_WINDOW must be > 0")
    ∷ (not_positive c.login_lockout, "APP_LOGIN_LOCKOUT must be > 0")
    ∷ []

abbrev pub only_if : Bool → List (Bool × String) → List (Bool × String)
only_if b checks = if b then checks else []

-- the checks of APP_ENV
unfoldable pub environment_checks : Config → List (Bool × String)
environment_checks c =
    (str_eq (normalize c.app_env) "", "APP_ENV must not be empty")
    ∷ (
      not (str_eq (normalize c.app_env) "development")
          && not (str_eq (normalize c.app_env) "production"),
      "APP_ENV must be one of: development, production",
    )
    ∷ []

abbrev pub or_else : Option String → Option String → Option String
or_else (some text) later = some text
or_else none later = later

-- Validate: the text of the error, if there is one
unfoldable pub validate : Library → Config → Option String
validate lib c = or_else (first_error (environment_checks c)) (
    or_else
      (first_error (
        only_if (str_eq (normalize c.app_env) "production")
          (production_required c ++ production_defaults lib c)))
      (or_else (first_error (key_checks c)) (
        or_else (first_error (service_checks c)) (
          or_else (first_error (only_if c.webhooks_enabled (webhook_checks c))) (
            or_else (first_error (only_if c.auto_failover_enabled (failover_checks c)))
              (first_error (login_checks c)))))))
