-- ===== src/Webhook/Classify.antt =====
-- internal/api/webhook_event_parser.go: what kind of event a provider reports.

use maild.Base.{◌||◌, not, Option, none, some, [], ◌∷◌, String, str_eq, starts_with, if◌then◌else◌}
use maild.Base.Int.{ℤ, pos}
use maild.ApiKey.{eq_ℤ}
use maild.Text.{trim_space, to_lower, normalize, contains, equal_fold, mem_text}
use maild.Webhook.Json.{Fields}
use maild.Webhook.Values.{first_any, int64_from_any, string_from_any, text_at, map_at}

-- the cases of normalizeWebhookEventType
unfoldable pub canonical_type : String → String
canonical_type event =
    if mem_text event ("hard_bounce" ∷ "hardbounce" ∷ [])
    then "bounce_permanent"
    else if mem_text event
        ("soft_bounce" ∷ "softbounce" ∷ "temporary_bounce" ∷ "transient_bounce" ∷ [])
    then "bounce_temporary"
    else if mem_text event
        ("bounce" ∷ "bounced" ∷ "failed" ∷ "dropped" ∷ "blocked" ∷ "reject" ∷ "rejected" ∷ [])
    then "bounce_unclassified"
    else if mem_text event
        ("complaint" ∷ "complained" ∷ "spam" ∷ "spamreport" ∷ "spam_report" ∷ "abuse" ∷ [])
    then "complaint"
    else if mem_text event (
        "unsubscribe" ∷ "unsubscribed" ∷ "group_unsubscribe" ∷ "list_unsubscribe"
        ∷ "user_unsubscribed" ∷ [])
    then "unsubscribe"
    else ""

-- normalizeWebhookEventType
unfoldable pub normalize_event_type : String → String
unfolding canonical_type
normalize_event_type raw = canonical_type (normalize raw)

abbrev pub enhanced_class : String → Option String
enhanced_class status =
    if starts_with status "4." || starts_with status "4 "
    then some "bounce_temporary"
    else if starts_with status "5." || starts_with status "5 "
    then some "bounce_permanent"
    else none

-- classifyEnhancedSMTPStatus; its empty answer is none
unfoldable pub classify_enhanced : String → Option String
classify_enhanced status = enhanced_class (trim_space status)

abbrev pub bounce_kind : String → Option String
bounce_kind kind =
    if mem_text kind ("permanent" ∷ "hard" ∷ [])
    then some "bounce_permanent"
    else if mem_text kind ("transient" ∷ "temporary" ∷ "soft" ∷ [])
    then some "bounce_temporary"
    else none

-- the class that the object under "bounce" gives (Amazon SES)
unfoldable pub class_of_bounce : Option Fields → Option String
class_of_bounce none = none
class_of_bounce (some bounce) = bounce_kind (to_lower (text_at bounce ("bounceType" ∷ "type" ∷ [])))

abbrev pub severity_class : String → Option String
severity_class severity =
    if str_eq severity "permanent"
    then some "bounce_permanent"
    else if str_eq severity "temporary"
    then some "bounce_temporary"
    else none

-- the class that the object under "event-data" gives (Mailgun)
unfoldable pub class_of_data : Option Fields → Option String
class_of_data none = none
class_of_data (some fs) = severity_class (to_lower (text_at fs ("severity" ∷ [])))

-- the class that the words of Postmark give
unfoldable pub class_of_postmark : String → String → ℤ → Option String
class_of_postmark raw_type postmark_type code =
    if equal_fold (trim_space raw_type) "bounce" || equal_fold (trim_space raw_type) "failed"
    then if contains postmark_type "hard" || eq_ℤ code (pos 1)
      then some "bounce_permanent"
      else if contains postmark_type "soft"
          || contains postmark_type "transient"
          || eq_ℤ code (pos 2)
          || eq_ℤ code (pos 4096)
      then some "bounce_temporary"
      else none
    else none

abbrev pub or_class : Option String → Option String → Option String
or_class none later = later
or_class (some class) later = some class

abbrev pub or_type : String → Option String → String
or_type event_type none = event_type
or_type event_type (some class) = class

-- the evidence of the object, from the first place that has some
unfoldable pub bounce_evidence : (String → Option ℤ) → Fields → String → Option String
unfolding class_of_bounce class_of_data classify_enhanced class_of_postmark
bounce_evidence parse_int fs raw_type = or_class (class_of_bounce (map_at "bounce" fs)) (
    or_class (class_of_data (map_at "event-data" fs)) (
      or_class
        (classify_enhanced
          (string_from_any (first_any fs ("status" ∷ "Status" ∷ "smtp_status" ∷ []))))
        (class_of_postmark raw_type (to_lower (text_at fs ("Type" ∷ "BounceType" ∷ [])))
          (int64_from_any parse_int (first_any fs ("TypeCode" ∷ "type_code" ∷ []))))))

-- classifyProviderBounce: its first three tests come to one
unfoldable pub classify_provider_bounce : (String → Option ℤ) → Fields → String → String → String
classify_provider_bounce parse_int fs raw_type event_type =
    if not (str_eq event_type "bounce_unclassified")
    then event_type
    else or_type event_type (bounce_evidence parse_int fs raw_type)
