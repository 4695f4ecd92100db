-- ===== src/Service/Queueing.antt =====
-- internal/service/message_service.go, QueueMessage, with the limiter of
-- internal/ratelimit/redis_limiter.go that it asks. A window's counter outlives the window (the key
-- names the hour, and expires after two), so expiry is not modelled.
pub mod Laws
pub mod Admission
pub mod Limits
use maild.Base.{
  ℕ, suc, ◌+◌, ◌-◌, ◌*◌, ◌/◌, Bool, false, ◌&&◌, ◌||◌, Option, none, some, List, [], ◌∷◌, String,
  ◌==◌, str_eq, if◌then◌else◌,
}
use maild.Base.Int.{ℤ, pos, ltb_ℤ, leb_ℤ}
use maild.Text.{mem_text}
use maild.Domain.{Status, queued, suppressed, Message}
use maild.Store.Defs.{bad_request, blocked_recipient_domain, rate_limited, ok}
use maild.Store.Messages.{Draft, create_message, count_messages_since}
use maild.Store.Recipients.{is_suppressed, is_unsubscribed}
use maild.World.{
  RateKey, workspace_window, domain_window, Act, pure, raise, ◌>>=◌, ◌>>◌, query, exec, redis,
  clock,
}
use maild.Service.Defs.{MessageService, enqueue, meter}
use maild.Service.Helpers.{extract_domain, is_blocked_domain}
use maild.Service.Policy.{workspace_policy}

abbrev pub hour : ℕ
hour = 3600000000000

abbrev pub same_key : RateKey → RateKey → Bool
same_key (workspace_window ws h) (workspace_window ws' h') = ws == ws' && h == h'
same_key (domain_window ws d h) (domain_window ws' d' h') = ws == ws' && str_eq d d' && h == h'
same_key _ _ = false

-- the counter of a key, 0 if it is absent
unfoldable pub rate_count : RateKey → List (RateKey × ℕ) → ℕ
rate_count k [] = 0
rate_count k ((j, n) ∷ rates) = if same_key j k then n else rate_count k rates

-- INCR
unfoldable pub increment : RateKey → List (RateKey × ℕ) → List (RateKey × ℕ)
increment k [] = (k, 1) ∷ []
increment k ((j, n) ∷ rates) =
    if same_key j k then (j, suc n) ∷ rates else (j, n) ∷ increment k rates

-- incrementWindow: the counter after INCR
unfoldable pub increment_window : RateKey → Act ℕ
unfolding increment rate_count
increment_window k =
    redis (λ s. let rates = increment k s.rates in (rate_count k rates, record s { rates = rates }))

abbrev pub within_domain : MessageService → ℕ → Option String
within_domain s n =
    if ltb_ℤ s.limit_domain (pos n) then some "recipient_domain_hourly_limit" else none

-- RedisLimiter.Allow: the reason, if it does not allow
unfoldable pub allow : MessageService → ℕ → String → Act (Option String)
allow s ws domain = do
  now ← clock
  n ← increment_window (workspace_window ws (now / hour))
  if ltb_ℤ s.limit_workspace (pos n)
      then pure (some "workspace_hourly_limit")
      else do m ← increment_window (domain_window ws domain (now / hour)); pure (within_domain s m)

abbrev pub check_count : ℤ → String → ℕ → Act (Unit {0})
check_count limit reason count =
    if leb_ℤ limit (pos count) then raise (rate_limited reason) else pure tt

-- one of the two policy limits; an empty domain counts the workspace
unfoldable pub check_policy_limit : ℤ → ℕ → String → String → Act (Unit {0})
check_policy_limit limit ws domain reason =
    if ltb_ℤ (pos 0) limit
    then (do
      now ← clock
      count ← query (λ db. ok (count_messages_since ws domain (now - hour) db))
      check_count limit reason count)
    else pure tt

abbrev pub check_blocked : Bool → Act (Unit {0})
check_blocked blocked = if blocked then raise blocked_recipient_domain else pure tt

abbrev pub check_allowed : Option String → Act (Unit {0})
check_allowed none = pure tt
check_allowed (some reason) = raise (rate_limited reason)

-- the checks of QueueMessage, in their order
unfoldable pub admit : MessageService → ℕ → String → Act (Unit {0})
unfolding check_policy_limit allow increment_window workspace_policy
admit s ws domain = do
  policy ← workspace_policy s ws
  check_policy_limit policy.rate_limit_workspace_per_hour ws "" "tenant_workspace_policy_limit"
  check_policy_limit policy.rate_limit_domain_per_hour ws domain "tenant_domain_policy_limit"
  check_blocked (is_blocked_domain policy.blocked_recipient_domains domain)
  check_blocked (mem_text domain s.blocked_recipient_domains)
  reason ← allow s ws domain
  check_allowed reason

-- from CreateMessage on; `stopped` is whether the recipient is suppressed or unsubscribed
unfoldable pub store_and_enqueue : MessageService → Bool → Draft → Act Message
unfolding enqueue meter
store_and_enqueue s stopped draft = do
  m ← exec (λ now db. let (m, db') = create_message draft now db in (ok m, db'))
  if stopped
      then (do
        meter draft.workspace_id m.id "message_suppressed" "{\"source\":\"queue_message\"}"
        pure m)
      else (do
        enqueue s m.id
        meter draft.workspace_id m.id "message_queued" "{\"source\":\"queue_message\"}"
        pure m)

abbrev pub first_status : Bool → Status
first_status stopped = if stopped then suppressed else queued

abbrev pub draft_of : ℕ → String → String → String → String → Bool → Draft
draft_of ws from_email to_email subject body stopped = record {
  workspace_id = ws;
  from_email = from_email;
  to_email = to_email;
  subject = subject;
  body_text = body;
  status = first_status stopped;
}

-- QueueMessage
unfoldable pub queue_message : MessageService → ℕ → String → String → String → String → Act Message
unfolding admit store_and_enqueue
queue_message s ws from_email to_email subject body =
    if str_eq (extract_domain to_email) "" then raise bad_request else do
      admit s ws (extract_domain to_email)
      on_list ← query (λ db. ok (is_suppressed ws to_email db))
      unsubscribed ← query (λ db. ok (is_unsubscribed ws to_email db))
      store_and_enqueue s (on_list || unsubscribed)
          (draft_of ws from_email to_email subject body (on_list || unsubscribed))
