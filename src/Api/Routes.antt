-- ===== src/Api/Routes.antt =====
-- internal/api/http.go: Register, for the routes of the JSON API but analytics and billing: which
-- roles a route lets through, and its handler.
use maild.Base.{◌==◌, if◌then◌else◌, Option, some, List, [], ◌∷◌, String}
use maild.Base.Int.{ℤ}
use maild.ApiKey.{Principal, Reply, passed, status, require_role, Lookup, api_key_middleware}
use maild.World.{Act}
use maild.Service.Defs.{MessageService}
use maild.Api.Defs.{Response, Query, fail}
use maild.Api.Messages.{
  CreateMessageRequest, create_message_handler, RetryRequest, retry_messages_handler,
  message_timeline_handler, message_logs_handler,
}
use maild.Api.Recipients.{RecipientRequest, create_suppression, create_unsubscribe}
use maild.Api.Accounts.{
  AccountRequest, upsert_smtp_account_handler, ActivateRequest, activate_smtp_account_handler,
  list_smtp_accounts_handler, validate_smtp_account_handler, PolicyRequest,
  workspace_policy_handler,
}
use maild.DomainCheck.{Resolver}
use maild.Api.Readiness.{
  DomainRequest, check_domain_readiness_handler, onboarding_checklist_handler,
  incident_bundle_handler,
}
use maild.Api.Webhooks.{ReplayRequest, replay_dead_letters_handler, webhook_logs_handler}

-- a request to one of the routes: its method, its query values where they are read, and the body
pub data Call : Type 0 where
  messages : String → Option CreateMessageRequest → Call
  suppressions : String → Option RecipientRequest → Call
  unsubscribes : String → Option RecipientRequest → Call
  smtp_accounts : String → Option AccountRequest → Call
  activate : String → Option ActivateRequest → Call
  domains : Resolver → String → Option DomainRequest → Call  -- with the answers of the resolver
  validate : String → Option ℤ → Call
  policy : String → Query → Option PolicyRequest → Call
  retry : String → Option RetryRequest → Call
  replay : String → Option ReplayRequest → Call

abbrev pub all_roles : List String
all_roles = "admin" ∷ "operator" ∷ "viewer" ∷ []

-- the arguments of RequireRole
unfoldable pub roles_of : Call → List String
roles_of (messages _ _) = "admin" ∷ "operator" ∷ []
roles_of (suppressions _ _) = "admin" ∷ []
roles_of (unsubscribes _ _) = "admin" ∷ []
roles_of (smtp_accounts _ _) = "admin" ∷ []
roles_of (activate _ _) = "admin" ∷ []
roles_of (domains _ _ _) = "admin" ∷ "operator" ∷ []
roles_of (validate _ _) = "admin" ∷ []
roles_of (policy _ _ _) = all_roles
roles_of (retry _ _) = "admin" ∷ "operator" ∷ []
roles_of (replay _ _) = "admin" ∷ "operator" ∷ []

unfoldable pub handler_of : MessageService → Option Principal → Call → Act Response
handler_of s context (messages method body) = create_message_handler s context method body
handler_of s context (suppressions method body) = create_suppression context method body
handler_of s context (unsubscribes method body) = create_unsubscribe context method body
handler_of s context (smtp_accounts method body) = upsert_smtp_account_handler s context method body
handler_of s context (activate method body) = activate_smtp_account_handler context method body
handler_of s context (domains resolver method body) =
    check_domain_readiness_handler resolver context method body
handler_of s context (validate method body) = validate_smtp_account_handler s context method body
handler_of s context (policy method q body) = workspace_policy_handler s context method q body
handler_of s context (retry method body) = retry_messages_handler s context method body
handler_of s context (replay method body) = replay_dead_letters_handler s context method body

abbrev pub if_passed : Reply → (Principal → Act Response) → Act Response
if_passed (passed p) f = f p
if_passed (status code) f = fail code (if code == 401 then "unauthorized" else "forbidden")

-- the route of a call, with the principal of the request
unfoldable pub serve : MessageService → Option Principal → Call → Act Response
unfolding roles_of handler_of
serve s context call =
    if_passed (require_role (roles_of call) context) (λ _. handler_of s context call)

-- the route with the middleware of API keys in front; `hash` and `store` as in ApiKey
unfoldable pub serve_with_key :
    MessageService
    → (String → String)
    → String
    → String
    → Option (String → Lookup)
    → String
    → Call
    → Act Response
unfolding serve
serve_with_key s hash admin_key operator_key store header call =
    if_passed (api_key_middleware hash admin_key operator_key store header)
      (λ p. serve s (some p) call)

-- a request to one of the routes that answer with what is stored
pub data ReadCall : Type 0 where
  list_accounts : String → Query → ReadCall
  timeline : String → Query → ReadCall
  checklist : Resolver → String → Query → ReadCall
  bundle : String → Query → ReadCall
  message_logs : String → Query → ReadCall
  webhook_logs : String → Query → ReadCall

unfoldable pub read_handler_of : MessageService → Option Principal → ReadCall → Act Response
read_handler_of s context (list_accounts method q) = list_smtp_accounts_handler context method q
read_handler_of s context (timeline method q) = message_timeline_handler context method q
read_handler_of s context (checklist resolver method q) =
    onboarding_checklist_handler s resolver context method q
read_handler_of s context (bundle method q) = incident_bundle_handler context method q
read_handler_of s context (message_logs method q) = message_logs_handler context method q
read_handler_of s context (webhook_logs method q) = webhook_logs_handler context method q

-- these routes let every role through
unfoldable pub serve_read : MessageService → Option Principal → ReadCall → Act Response
unfolding read_handler_of
serve_read s context call =
    if_passed (require_role all_roles context) (λ _. read_handler_of s context call)
