-- ===== src/Service/Helpers.antt =====
-- The helper functions at the end of internal/service/message_service.go.
pub mod Domains
pub mod Backoff
use Prim.Native.String.{len, find, slice, ◌++◌ as ◌+s◌}
use maild.Base.{
  ℕ, ◌+◌, ◌-◌, ◌*◌, ◌%◌, ◌^◌, Bool, false, ◌&&◌, ◌||◌, Option, none, some, List, [], ◌∷◌, String,
  ltb, leb, ◌==◌, str_eq, if◌then◌else◌,
}
use maild.Base.Int.{ℤ, pos, negsuc}
use maild.Text.{trim_space, to_lower, normalize, after_last_at, mem_text, join}
use maild.Store.Defs.{Err, bad_request, blocked_recipient_domain, rate_limited}
use maild.Store.Webhooks.{nul_text}
use maild.Decimal.{decimal}

-- extractDomain
unfoldable pub extract_domain : String → String
extract_domain email = elim (after_last_at email) [ none ↦ "" | some rest ↦ normalize rest ]

-- `1 << n` on a 64-bit int, as the bit pattern
abbrev pub shl_one : ℕ → ℕ
shl_one n = 2 ^ n % 2 ^ 64

-- `x > k` on the signed reading of a 64-bit pattern, for k at least 0
abbrev pub signed_gt : ℕ → ℕ → Bool
signed_gt x k = ltb k x && ltb x (2 ^ 63)

-- `if attemptNo < 1 { attemptNo = 1 }`
abbrev pub first_at_least : ℕ → ℕ
first_at_least n = if n == 0 then 1 else n

-- the two backoff functions: a Duration in nanoseconds, as a 64-bit pattern
unfoldable pub capped_backoff : ℕ → ℕ → ℕ
capped_backoff most n =
    let seconds = shl_one (first_at_least n - 1) in
    (if signed_gt seconds most then most else seconds) * 1000000000 % 2 ^ 64

-- backoffDuration
unfoldable pub backoff_duration : ℕ → ℕ
unfolding capped_backoff
backoff_duration n = capped_backoff 32 n

-- webhookBackoffDuration
unfoldable pub webhook_backoff_duration : ℕ → ℕ
unfolding capped_backoff
webhook_backoff_duration n = capped_backoff 8 n

unfoldable pub seen_id : ℕ → List ℕ → Bool
seen_id i [] = false
seen_id i (j ∷ js) = j == i || seen_id i js

-- the loop of normalizePositiveIDs; `seen` is the set of the ids so far
unfoldable pub positive_ids_from : List ℕ → List ℤ → List ℕ
unfolding seen_id
positive_ids_from seen [] = []
positive_ids_from seen (negsuc n ∷ ids) = positive_ids_from seen ids
positive_ids_from seen (pos n ∷ ids) =
    let again = positive_ids_from seen ids in
    let more = positive_ids_from (n ∷ seen) ids in
    if n == 0 || seen_id n seen then again else n ∷ more

-- normalizePositiveIDs
unfoldable pub normalize_positive_ids : List ℤ → List ℕ
unfolding positive_ids_from
normalize_positive_ids ids = positive_ids_from [] ids

-- isBlockedDomain
unfoldable pub is_blocked_domain : List String → String → Bool
is_blocked_domain [] domain = false
is_blocked_domain (d ∷ ds) domain =
    str_eq (normalize d) (normalize domain) || is_blocked_domain ds domain

-- the loop of normalizeDomains
unfoldable pub domains_from : List String → List String → List String
domains_from seen [] = []
domains_from seen (d ∷ ds) =
    let v = normalize d in
    let again = domains_from seen ds in
    let more = domains_from (v ∷ seen) ds in
    if str_eq v "" || mem_text v seen then again else v ∷ more

-- normalizeDomains
unfoldable pub normalize_domains : List String → List String
unfolding domains_from
normalize_domains ds = domains_from [] ds

-- err.Error() of the errors that wrap ErrRateLimited
abbrev pub rate_limit_text : String → String
rate_limit_text reason = "rate limited: " +s reason

-- RateLimitReason; strings.Index answers with a position, or past the end if there is none
abbrev pub after_colon : String → String
after_colon msg =
    let i = find msg ": " in
    let reason = trim_space (slice msg (i + 2) (len msg)) in
    if ltb (len msg) i || leb (len msg) (i + 2) || str_eq reason ""
    then "rate_limit_exceeded"
    else reason

unfoldable pub rate_limit_reason : Option Err → String
rate_limit_reason (some (rate_limited reason)) = after_colon (rate_limit_text reason)
rate_limit_reason _ = "rate_limit_exceeded"

-- FormatQueueError
unfoldable pub format_queue_error : Option Err → String
unfolding rate_limit_reason
format_queue_error none = ""
format_queue_error (some blocked_recipient_domain) = "blocked_recipient_domain"
format_queue_error (some (rate_limited reason)) =
    "rate_limited:" +s rate_limit_reason (some (rate_limited reason))
format_queue_error (some bad_request) = "bad_request"
format_queue_error (some _) = "internal_error"

-- webhookIdentityKey; `digest` is SHA-256 in hexadecimal
unfoldable pub webhook_identity_key :
    (String → String) → ℕ → String → String → String → String → String → String
webhook_identity_key digest ws event_type email reason raw_payload provider_identity =
    let given = trim_space provider_identity in
    let material =
      if str_eq given ""
      then join nul_text (
          trim_space (to_lower event_type)
          ∷ trim_space (to_lower email)
          ∷ trim_space reason
          ∷ raw_payload
          ∷ [])
      else given in
    "v1:" +s digest (decimal ws +s nul_text +s material)
