-- ===== src/Webhook/Parse.antt =====
-- internal/api/webhook_event_parser.go: parseWebhookEvents and what it calls. The decoder of
-- encoding/json and strconv.ParseInt are parameters.
use Prim.Native.String.{◌++◌ as ◌+s◌}
use maild.Base.{
  ℕ, suc, ◌&&◌, ◌||◌, not, Option, none, some, List, [], ◌∷◌, ◌++◌, String, str_eq, if◌then◌else◌,
}
use maild.Base.Int.{ℤ}
use maild.Text.{trim_space, to_lower, contains}
use maild.Webhook.Json.{Value, arr, obj, Items, no_items, item, Fields}
use maild.Webhook.Values.{
  first_any, int64_from_any, string_from_any, text_at, at_key, map_at, map_from_any, slice_from_any,
  first_string, or_next,
}
use maild.Webhook.Classify.{normalize_event_type, classify_provider_bounce}

-- webhookEventRequest
pub record Request : Type 0 where
  pub workspace_id : ℤ
  pub event_type : String
  pub email : String
  pub reason : String
  pub identity : String

abbrev pub recipients_in : Option Fields → Option Items
recipients_in none = none
recipients_in (some bounce) = slice_from_any (at_key "bouncedRecipients" bounce)

abbrev pub not_nil : Option Items → Option Items
not_nil none = none
not_nil (some no_items) = none
not_nil (some (item v vs)) = some (item v vs)

-- sesBouncedRecipients
unfoldable pub ses_bounced_recipients : Fields → Option Items
ses_bounced_recipients fs = not_nil (recipients_in (map_at "bounce" fs))

abbrev pub text_in : List String → Option Fields → String
text_in keys none = ""
text_in keys (some fs) = text_at fs keys

abbrev pub bounce_reason : Option Fields → String
bounce_reason none = ""
bounce_reason (some bounce) =
    let kind = text_at bounce ("bounceType" ∷ "type" ∷ []) in
    let subtype = text_at bounce ("bounceSubType" ∷ "subType" ∷ "subtype" ∷ []) in
    if not (str_eq kind "") && not (str_eq subtype "") then kind +s "/" +s subtype else kind

-- reasonFromNestedObjects
unfoldable pub reason_from_nested : Fields → String
reason_from_nested fs =
    or_next (bounce_reason (map_at "bounce" fs))
      (text_in ("reason" ∷ "delivery-status" ∷ []) (map_at "event-data" fs))

abbrev pub first_destination : Option Items → String
first_destination none = ""
first_destination (some vs) = trim_space (first_string vs)

abbrev pub destination_of : Option Fields → String
destination_of none = ""
destination_of (some mail) = first_destination (slice_from_any (at_key "destination" mail))

-- emailFromNestedObjects where the object has no recipients of its own, as at its only call
unfoldable pub email_from_nested : Fields → String
email_from_nested fs =
    or_next (destination_of (map_at "mail" fs))
      (text_in ("recipient" ∷ "email" ∷ "rcpt_to" ∷ []) (map_at "event-data" fs))

abbrev pub tagged : String → String → String → String → String
tagged provider id event_type email =
    if str_eq id "" then "" else provider +s ":" +s id +s ":" +s event_type +s ":" +s email

-- providerWebhookIdentity
unfoldable pub provider_identity : Fields → String → String → String
provider_identity fs event_type email =
    let provider = to_lower (text_at fs ("RecordType" ∷ [])) in
    or_next (tagged "sendgrid" (text_at fs ("sg_event_id" ∷ [])) event_type email) (
      or_next (tagged "mailgun" (text_in ("id" ∷ []) (map_at "event-data" fs)) event_type email) (
        or_next (tagged "ses" (text_in ("messageId" ∷ []) (map_at "mail" fs)) event_type email) (
          tagged (or_next provider "provider")
            (text_at fs ("ID" ∷ "id" ∷ "event_id" ∷ "eventId" ∷ [])) event_type email)))

-- the words for the type, and its canonical name
abbrev pub type_words : Fields → String
type_words fs =
    string_from_any
      (first_any fs ("type" ∷ "event" ∷ "event_type" ∷ "eventType" ∷ "RecordType" ∷ []))

abbrev pub nested_words : String → Option Fields → String
nested_words words none = words
nested_words words (some nested) =
    string_from_any (first_any nested ("event" ∷ "event_type" ∷ "eventType" ∷ []))

-- rawType after both places were looked at
unfoldable pub raw_type_of : Fields → String
raw_type_of fs =
    if str_eq (normalize_event_type (type_words fs)) ""
    then nested_words (type_words fs) (map_at "event-data" fs)
    else type_words fs

unfoldable pub event_type_of : (String → Option ℤ) → Fields → String
event_type_of parse_int fs =
    classify_provider_bounce parse_int fs (raw_type_of fs) (normalize_event_type (raw_type_of fs))

unfoldable pub reason_of : Fields → String
reason_of fs =
    or_next
      (text_at fs
        ("reason" ∷ "description" ∷ "response" ∷ "diagnostic_code" ∷ "details" ∷ "message" ∷ []))
      (reason_from_nested fs)

abbrev pub with_diagnostic : String → String → String
with_diagnostic reason diagnostic =
    if not (str_eq diagnostic "") && not (contains reason diagnostic)
    then if str_eq reason "" then diagnostic else reason +s ": " +s diagnostic
    else reason

-- one event of the object
abbrev pub event_for : (String → Option ℤ) → Fields → String → String → Request
event_for parse_int fs reason email = record {
  workspace_id =
      int64_from_any parse_int (first_any fs ("workspace_id" ∷ "workspaceId" ∷ "workspace" ∷ []));
  event_type = event_type_of parse_int fs;
  email = to_lower email;
  reason = reason;
  identity = provider_identity fs (event_type_of parse_int fs) (to_lower email);
}

abbrev pub recipient_event : (String → Option ℤ) → Fields → Option Fields → List Request
recipient_event parse_int fs none = []
recipient_event parse_int fs (some recipient) =
    let email = text_at recipient ("emailAddress" ∷ "email" ∷ []) in
    if str_eq email ""
    then []
    else event_for parse_int fs
        (with_diagnostic (reason_of fs)
          (text_at recipient ("diagnosticCode" ∷ "status" ∷ "action" ∷ [])))
        email
      ∷ []

-- the loop over the recipients that Amazon SES lists
unfoldable pub recipient_events : (String → Option ℤ) → Fields → Items → List Request
recipient_events parse_int fs no_items = []
recipient_events parse_int fs (item v vs) =
    recipient_event parse_int fs (map_from_any v) ++ recipient_events parse_int fs vs

abbrev pub if_any : List Request → Option (List Request)
if_any [] = none
if_any (e ∷ es) = some (e ∷ es)

-- the address of an object without such a list
unfoldable pub email_of : Fields → String
email_of fs =
    or_next (text_at fs ("email" ∷ "recipient" ∷ "to" ∷ "rcpt_to" ∷ "Email" ∷ []))
      (email_from_nested fs)

abbrev pub object_events : (String → Option ℤ) → Fields → Option Items → Option (List Request)
object_events parse_int fs (some recipients) = if_any (recipient_events parse_int fs recipients)
object_events parse_int fs none =
    if str_eq (event_type_of parse_int fs) "" || str_eq (email_of fs) ""
    then none
    else some (event_for parse_int fs (reason_of fs) (email_of fs) ∷ [])

-- parseWebhookEventObject
unfoldable pub parse_object : (String → Option ℤ) → Fields → Option (List Request)
unfolding ses_bounced_recipients
parse_object parse_int fs = object_events parse_int fs (ses_bounced_recipients fs)

-- what one item of an array adds: its events, or one rejection
abbrev pub add_item : Option (List Request) → List Request × ℕ → List Request × ℕ
add_item none (events, rejected) = (events, suc rejected)
add_item (some more) (events, rejected) = (more ++ events, rejected)

abbrev pub item_events : (String → Option ℤ) → Option Fields → Option (List Request)
item_events parse_int none = none
item_events parse_int (some fs) = parse_object parse_int fs

-- the loop over an array
unfoldable pub parse_items : (String → Option ℤ) → Items → List Request × ℕ
parse_items parse_int no_items = ([], 0)
parse_items parse_int (item v vs) =
    add_item (item_events parse_int (map_from_any v)) (parse_items parse_int vs)

pub data Outcome : Type 0 where
  parsed : List Request → ℕ → Outcome
  invalid : String → ℕ → Outcome

abbrev pub unless_empty : List Request × ℕ → Outcome
unless_empty ([], rejected) = invalid "no valid events" rejected
unless_empty (e ∷ es, rejected) = parsed (e ∷ es) rejected

abbrev pub whole_object : Option (List Request) → Outcome
whole_object none = invalid "object missing required fields" 0
whole_object (some events) = unless_empty (events, 0)

abbrev pub parse_payload : (String → Option ℤ) → Option Value → Outcome
parse_payload parse_int none = invalid "malformed JSON" 0
parse_payload parse_int (some (obj fs)) = whole_object (parse_object parse_int fs)
parse_payload parse_int (some (arr vs)) = unless_empty (parse_items parse_int vs)
parse_payload parse_int (some _) = invalid "expected object or array" 0

-- parseWebhookEvents
unfoldable pub parse_events : (String → Option ℤ) → (String → Option Value) → String → Outcome
unfolding parse_items
parse_events parse_int decode body = parse_payload parse_int (decode body)
