-- ===== src/Examples/Deliveries.antt =====
-- Concrete runs of the receiver of webhooks.

use Prim.Native.String.{◌++◌ as ◌+s◌}
use maild.Base.{
  ◌-◌, ◌^◌, ◌<◌, ◌≤◌, ◌≡◌, ◌≢◌, ◌⊎◌, ◌↔◌, refl, true, false, Option, none, some, [], ◌∷◌, String,
  arith, str_eq, if◌then◌else◌, length, map, any,
}
use mathlib.Core.Option
use maild.Base.Int.{pos}
use maild.Text.{trim_space, trim_left, trim_right, is_space, to_lower, lower_char, mem_text}
use maild.Domain.{WebhookEvent, processing}
use maild.Store.Recipients.{is_suppressed, listed, upsert_recipient, normalize_email}
use maild.Webhook.{Library, Verifier, accepted, sign, verify}
use maild.Webhook.Signed.{IsSigned, verify-IsSigned, verify-sign}
use maild.Webhook.Json.{
  Value, str, num, arr, obj, Items, no_items, item, Fields, end, field, lookup,
}
use maild.Webhook.Values.{
  first_any, string_from_any, int64_from_any, map_from_any, slice_from_any, text_at,
}
use maild.Webhook.Classify.{
  canonical_type, normalize_event_type, classify_enhanced, class_of_bounce, class_of_data,
  class_of_postmark, bounce_evidence, classify_provider_bounce,
}
use maild.Webhook.Parse.{
  Request, ses_bounced_recipients, reason_from_nested, email_from_nested, provider_identity,
  raw_type_of, event_type_of, reason_of, email_of, parse_object, parse_items, parsed, parse_events,
}
use maild.Store.Webhooks.{apply_event_tx, classify_bounce}
use maild.Webhook.Laws.{IsSound, All, parse_events-IsSound}
use maild.Webhook.ByItem.{events_of_each, refused_of_each, parse_events_by_item}
use maild.Webhook.Uses.{
  IsGrave, provider_identity-TellsApart, is_suppressed-IsGrave, parse_object_untyped,
}
use maild.Api.Webhooks.{Receiver, Delivery, receive_webhook_event}
use maild.Api.Receipt.{Genuine, receive_webhook_event-IsSigned}
use maild.Examples.{service, world, tables}

-- a library whose MAC is the key before the message, and whose hexadecimal digits are the bytes
abbrev library : Library
library = record {
  hmac = λ key t. key +s t;
  decode_hex = λ t. if str_eq t "abcd" then some "secret4000.{}" else none;
  parse_int = λ t. if str_eq t "4000" then some (pos 4000) else none;
}

abbrev verifier : Verifier
verifier = record { secret = "secret"; max_skew = 300000000000 }

in_range : verifier.max_skew < 2 ^ 63 - 1
in_range = omega arith

verify-IsSigned_example :
    (verify library verifier "4000" "v1=abcd" "{}" (pos 4000000000000) ≡ accepted)
    ↔ IsSigned library verifier "4000" "v1=abcd" "{}" (pos 4000000000000)
verify-IsSigned_example =
    verify-IsSigned library verifier "4000" "v1=abcd" "{}" (pos 4000000000000) in_range

dated : (trim_space "4000" ≢ "") × (library.parse_int (trim_space "4000") ≡ some (pos 4000))
unfolding trim_space trim_left trim_right is_space
dated = (λ e. absurd (cc e), refl)

digest_read : library.decode_hex "abcd" ≡ some (sign library "secret" (trim_space "4000") "{}")
unfolding sign trim_space trim_left trim_right is_space
digest_read = refl

digest_given : str_eq (sign library "secret" (trim_space "4000") "{}") "" ≡ false
unfolding sign trim_space trim_left trim_right is_space
digest_given = refl

verify-sign_example :
    verify library verifier "4000" ("v1=" +s "abcd") "{}" (pos 4000000000000) ≡ accepted
unfolding is_space
verify-sign_example =
    verify-sign library verifier "4000" "abcd" "{}" (pos 4000000000000) (pos 4000) in_range dated.0
      dated.1 (omega arith, omega arith)
      ((refl, refl, (refl, refl, (refl, refl, (refl, refl, tt))))) digest_read digest_given

-- a permanent bounce as Postmark reports it, and an item that reports nothing

abbrev bounce : Fields
bounce =
    field "RecordType" (str "HardBounce")
      (field "email" (str " Ann@Example.org ") (field "id" (num "17") end))

abbrev items : Items
items = item (obj bounce) (item (str "?") no_items)

abbrev decoder : String → Option Value
decoder body = some (arr items)

abbrev ann : Request
ann = record {
  workspace_id = pos 0;
  event_type = "bounce_permanent";
  email = "ann@example.org";
  reason = "";
  identity = "hardbounce:17:bounce_permanent:ann@example.org";
}

two_items : parse_events library.parse_int decoder "[]" ≡ parsed (ann ∷ []) 1
unfolding canonical_type normalize_event_type classify_enhanced class_of_bounce class_of_data
    class_of_postmark bounce_evidence classify_provider_bounce lookup ses_bounced_recipients
    reason_from_nested email_from_nested provider_identity raw_type_of event_type_of reason_of
    email_of parse_object parse_items parse_events first_any int64_from_any string_from_any
    map_from_any slice_from_any trim_space trim_left trim_right is_space to_lower lower_char
    mem_text
two_items = refl

parse_events-IsSound_example : All IsSound (ann ∷ []) × (1 ≤ length (ann ∷ []))
parse_events-IsSound_example =
    parse_events-IsSound library.parse_int decoder "[]" (ann ∷ []) 1 two_items

parse_events_by_item_example :
    (ann ∷ [] ≡ events_of_each library.parse_int items)
    × (1 ≡ refused_of_each library.parse_int items)
parse_events_by_item_example =
    parse_events_by_item library.parse_int decoder "[]" items (ann ∷ []) 1 refl two_items

provider_identity-TellsApart_example :
    (provider_identity bounce "bounce_permanent" ann.email ≡ "") ⊎ (ann.email ≡ ann.email)
provider_identity-TellsApart_example =
    provider_identity-TellsApart bounce "bounce_permanent" ann.email ann.email refl

-- an event that suppresses its address

abbrev event : WebhookEvent
event = record {
  id = 0;
  workspace_id = 1;
  event_type = "bounce_permanent";
  identity_key = "v1:k";
  email = "ann@example.org";
  reason = "";
  status = processing;
  attempt_count = 0;
  last_error = "";
  raw_payload = "{}";
  created_at = 0;
}

same_type : event.event_type ≡ event_type_of library.parse_int bounce
unfolding canonical_type normalize_event_type classify_enhanced class_of_bounce class_of_data
    class_of_postmark bounce_evidence classify_provider_bounce lookup ses_bounced_recipients
    reason_from_nested email_from_nested provider_identity raw_type_of event_type_of reason_of
    email_of parse_object parse_items parse_events first_any int64_from_any string_from_any
    map_from_any slice_from_any trim_space trim_left trim_right is_space to_lower lower_char
    mem_text
same_type = refl

not_yet : is_suppressed 1 "ann@example.org" tables ≡ false
unfolding is_suppressed any listed
not_yet = refl

suppressed : is_suppressed 1 "ann@example.org" (apply_event_tx event tables).1 ≡ true
unfolding apply_event_tx is_suppressed any listed classify_bounce trim_space trim_left trim_right
    is_space to_lower lower_char upsert_recipient normalize_email
suppressed = refl

is_suppressed-IsGrave_example : IsGrave library.parse_int bounce
is_suppressed-IsGrave_example =
    is_suppressed-IsGrave library.parse_int bounce event 1 "ann@example.org" tables same_type
      not_yet suppressed

-- a list of recipients without a type

abbrev recipient : Fields
recipient = field "emailAddress" (str "ann@example.org") end

abbrev untyped : Fields
untyped =
    field "bounce" (obj (field "bouncedRecipients" (arr (item (obj recipient) no_items)) end)) end

no_type : event_type_of library.parse_int untyped ≡ ""
unfolding canonical_type normalize_event_type classify_enhanced class_of_bounce class_of_data
    class_of_postmark bounce_evidence classify_provider_bounce lookup ses_bounced_recipients
    reason_from_nested email_from_nested provider_identity raw_type_of event_type_of reason_of
    email_of parse_object parse_items parse_events first_any int64_from_any string_from_any
    map_from_any slice_from_any trim_space trim_left trim_right is_space to_lower lower_char
    mem_text
no_type = refl

lists_ann : ses_bounced_recipients untyped ≡ some (item (obj recipient) no_items)
unfolding ses_bounced_recipients lookup map_from_any slice_from_any
lists_ann = refl

names_ann : str_eq (text_at recipient ("emailAddress" ∷ "email" ∷ [])) "" ≡ false
unfolding first_any lookup string_from_any trim_space trim_left trim_right is_space
names_ann = refl

parse_object_untyped_example :
    Option.map (map (λ (e : Request). e.event_type)) (parse_object library.parse_int untyped)
    ≡ some ("" ∷ [])
parse_object_untyped_example =
    parse_object_untyped library.parse_int untyped recipient no_type lists_ann names_ann

-- a signed delivery

abbrev receiver : Receiver
receiver = record { service = service; verifier = verifier; library = library; decode = decoder }

abbrev delivery : Delivery
delivery = record {
  method = "POST";
  timestamp_header = "4000";
  signature_header = "v1=abcd";
  body = some "{}";
}

receive_webhook_event-IsSigned_example :
    ((receive_webhook_event receiver delivery world).1 ≡ world) ⊎ Genuine receiver delivery world
receive_webhook_event-IsSigned_example =
    receive_webhook_event-IsSigned receiver delivery world in_range
