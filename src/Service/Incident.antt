-- ===== src/Service/Incident.antt =====
-- internal/service/message_service.go: IncidentBundle and TechnicalOnboardingChecklist. A checklist
-- item's ID stands for its constant title, description and action.
pub mod Laws
use Prim.Native.String.{◌++◌ as ◌+s◌}
use maild.Base.{
  ℕ, ◌+◌, ◌-◌, ◌*◌, Bool, ◌&&◌, not, none, List, [], ◌∷◌, String, ◌==◌, leb, ltb, str_eq,
  if◌then◌else◌, length, any, keep, count_if,
}
use maild.Base.Int.{ℤ, pos, negsuc, leb_ℤ, ltb_ℤ, pos_part}
use maild.Text.{normalize}
use maild.Decimal.{decimal}
use maild.Domain.{
  SmtpAccountSummary, WorkspacePolicy, Message, MessageAttempt, WebhookEvent, is_dead_letter,
}
use maild.Store.Defs.{other, ok}
use maild.Store.Accounts.{list_accounts}
use maild.Store.Webhooks.{list_webhook_events}
use maild.World.{Act, pure, raise, ◌>>=◌, query, clock}
use maild.Service.Defs.{MessageService}
use maild.Service.Policy.{default_workspace, workspace_policy}
use maild.Service.Queueing.{hour}
use maild.Service.Retry.{list_messages}
use maild.Service.Accounts.{message_timeline}

-- strconv.FormatInt
unfoldable pub decimal_ℤ : ℤ → String
decimal_ℤ (pos n) = decimal n
decimal_ℤ (negsuc n) = "-" +s decimal (n + 1)

pub record ChecklistItem : Type 0 where
  pub id : String
  pub done : Bool
  pub evidence : String

pub record Checklist : Type 0 where
  pub workspace_id : ℕ
  pub generated_at : ℕ
  pub completed : ℕ
  pub total : ℕ
  pub items : List ChecklistItem

abbrev pub item_of : String → Bool → String → ChecklistItem
item_of id done evidence = record { id = id; done = done; evidence = evidence }

abbrev pub of_bool : Bool → String
of_bool b = if b then "true" else "false"

-- the six items
unfoldable pub checklist_items :
    List SmtpAccountSummary
    → WorkspacePolicy
    → List Message
    → List WebhookEvent
    → List ChecklistItem
unfolding decimal_ℤ
checklist_items accounts policy messages webhooks =
    let active = any (λ (a : SmtpAccountSummary). a.active) accounts in
    item_of "smtp_account_configured" (ltb 0 (length accounts))
      (decimal (length accounts) +s " account(s) configured")
    ∷ item_of "active_smtp_provider_selected" active ("active provider found: " +s of_bool active)
    ∷ item_of "provider_failover_ready" (leb 2 (length accounts))
        (decimal (length accounts) +s " provider profile(s) available")
    ∷ item_of "workspace_policy_reviewed"
        (ltb_ℤ (pos 0) policy.rate_limit_workspace_per_hour
          && ltb_ℤ (pos 0) policy.rate_limit_domain_per_hour)
        ("workspace/hour="
          +s decimal_ℤ policy.rate_limit_workspace_per_hour
          +s ", domain/hour="
          +s decimal_ℤ policy.rate_limit_domain_per_hour
          +s ", blocked_domains="
          +s decimal (length policy.blocked_recipient_domains))
    ∷ item_of "message_flow_verified" (ltb 0 (length messages))
        ("recent messages observed: " +s decimal (length messages))
    ∷ item_of "webhook_flow_verified" (ltb 0 (length webhooks))
        ("recent webhook events observed: " +s decimal (length webhooks))
    ∷ []

-- TechnicalOnboardingChecklist
unfoldable pub technical_onboarding_checklist : MessageService → ℕ → Act Checklist
unfolding checklist_items
technical_onboarding_checklist s requested = do
  let ws = default_workspace requested
  accounts ← query (λ db. ok (list_accounts ws db))
  policy ← workspace_policy s ws
  messages ← query (λ db. ok (list_messages ws (pos 1) 0 0 db))
  webhooks ← query (λ db. ok (list_webhook_events ws (pos 1) none 0 0 db))
  now ← clock
  let items = checklist_items accounts policy messages webhooks
  pure (record {
    workspace_id = ws;
    generated_at = now;
    completed = count_if (λ (i : ChecklistItem). i.done) items;
    total = length items;
    items = items;
  })

pub record IncidentBundle : Type 0 where
  pub workspace_id : ℕ
  pub message_id : ℕ
  pub generated_at : ℕ
  pub webhook_window_from : ℕ
  pub webhook_window_to : ℕ
  pub message : Message
  pub attempts : List MessageAttempt
  pub webhook_outcomes : List WebhookEvent
  pub attempted_sends : ℕ
  pub failed_attempts : ℕ
  pub related_webhook_outcomes : ℕ
  pub dead_letter_webhooks : ℕ

-- the window of events: a day before the message was made, and a day after its last change
abbrev pub window_from : Message → ℕ
window_from m = m.created_at - 24 * hour

unfoldable pub window_to : Message → ℕ
window_to m =
    let end = m.updated_at + 24 * hour in
    if leb end (window_from m) then window_from m + 48 * hour else end

abbrev pub concerns_recipient : Message → WebhookEvent → Bool
concerns_recipient m e = str_eq (normalize e.email) (normalize m.to_email)

-- from the message on
unfoldable pub bundle_for : ℕ → ℕ → Message × List MessageAttempt → Act IncidentBundle
unfolding window_to
bundle_for ws id (m, attempts) =
    if not (m.workspace_id == ws) then raise (other "workspace mismatch") else (do
      webhooks ←
          query (λ db. ok (list_webhook_events ws (pos 200) none (window_from m) (window_to m) db))
      now ← clock
      let related = keep (concerns_recipient m) webhooks
      pure (record {
        workspace_id = ws;
        message_id = id;
        generated_at = now;
        webhook_window_from = window_from m;
        webhook_window_to = window_to m;
        message = m;
        attempts = attempts;
        webhook_outcomes = related;
        attempted_sends = length attempts;
        failed_attempts = count_if (λ (a : MessageAttempt). not a.success) attempts;
        related_webhook_outcomes = length related;
        dead_letter_webhooks = count_if (λ (e : WebhookEvent). is_dead_letter e.status) related;
      }))

-- IncidentBundle
unfoldable pub incident_bundle : ℕ → ℤ → Act IncidentBundle
unfolding bundle_for
incident_bundle requested id =
    if leb_ℤ id (pos 0)
    then raise (other "message_id is required")
    else message_timeline (pos_part id) >>= bundle_for (default_workspace requested) (pos_part id)
