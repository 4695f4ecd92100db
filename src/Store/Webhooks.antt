-- ===== src/Store/Webhooks.antt =====
-- internal/store/postgres/webhook_atomic.go and the statements on `webhook_events` of postgres.go.
-- SHA-256 with its hexadecimal spelling is a parameter, `digest`.
pub mod Laws
use Prim.Native.Char.{nul}
use Prim.Native.String.{◌++◌ as ◌+s◌}
use maild.Base.{
  ℕ, suc, ◌+◌, Bool, true, false, ◌&&◌, ◌||◌, Option, none, some, List, [], ◌∷◌, ◌++◌, String, ltb,
  leb, ◌==◌, str_eq, if◌then◌else◌, keep, find, update_if, take,
}
use maild.Base.Int.{ℤ, pos, ltb_ℤ, pos_part}
use maild.Text.{to_lower, trim_space, normalize, join, is_blank, mem_text}
use maild.Domain.{
  EventStatus, processing, applied, dead_letter, replayed, is_dead_letter, WebhookEvent,
}
use maild.Store.Defs.{Db}
use maild.Store.Recipients.{normalize_email, upsert_recipient}

abbrev pub nul_text : String
nul_text = String.◌∷◌ nul String.[]

-- classifyLegacyBounce, and classifyStoredWebhookBounce of the service, which is the same function
unfoldable pub classify_bounce : String → String → String
classify_bounce event_type reason =
    if str_eq event_type "bounce"
    then if mem_text (normalize reason)
        ("hard_bounce" ∷ "permanent" ∷ "permanent/general" ∷ "permanent/suppressed" ∷ [])
      then "bounce_permanent"
      else if mem_text (normalize reason) (
          "soft_bounce" ∷ "transient" ∷ "temporary" ∷ "temporary/general" ∷ "transient/general"
          ∷ [])
      then "bounce_temporary"
      else "bounce_unclassified"
    else event_type

-- storeWebhookIdentityKey; `decimal` is strconv.FormatInt
unfoldable pub store_identity_key : (String → String) → (ℕ → String) → WebhookEvent → String
unfolding normalize_email
store_identity_key digest decimal e =
    "v1:"
    +s digest (
        join nul_text (
          decimal e.workspace_id
          ∷ trim_space (to_lower e.event_type)
          ∷ normalize_email e.email
          ∷ trim_space e.reason
          ∷ e.raw_payload
          ∷ []))

abbrev pub has_identity : ℕ → String → WebhookEvent → Bool
has_identity ws key e = e.workspace_id == ws && str_eq e.identity_key key

abbrev pub insert_new : WebhookEvent → ℕ → Db → WebhookEvent × Db
insert_new e now db =
    let row = record e { id = db.next_webhook_id; created_at = now } in
    (
      row,
      record db { webhooks = db.webhooks ++ row ∷ []; next_webhook_id = suc db.next_webhook_id },
    )

-- INSERT … ON CONFLICT (workspace_id, identity_key) DO NOTHING, and the row that is there
unfoldable pub insert_or_get : WebhookEvent → ℕ → Db → WebhookEvent × Db
insert_or_get e now db = elim (find (has_identity e.workspace_id e.identity_key) db.webhooks) [
  | some row ↦ (row, db)
  | none ↦ insert_new e now db
]

-- InsertWebhookEvent
unfoldable pub insert_webhook_event :
    (String → String) → (ℕ → String) → WebhookEvent → ℕ → Db → WebhookEvent × Db
unfolding insert_or_get store_identity_key
insert_webhook_event digest decimal e now db =
    let key =
      if str_eq e.identity_key "" then store_identity_key digest decimal e else e.identity_key in
    insert_or_get (record e { identity_key = key }) now db

-- `if limit < 1 { limit = 50 }; if limit > 200 { limit = 200 }`
unfoldable pub clamp_limit : ℕ → ℕ → ℤ → ℕ
clamp_limit default most limit =
    if ltb_ℤ limit (pos 1) then default else if ltb_ℤ (pos most) limit then most else pos_part limit

abbrev pub same_event_status : EventStatus → EventStatus → Bool
same_event_status processing processing = true
same_event_status applied applied = true
same_event_status dead_letter dead_letter = true
same_event_status replayed replayed = true
same_event_status _ _ = false

-- `$2 = '' OR status = $2`
abbrev pub status_passes : Option EventStatus → EventStatus → Bool
status_passes none s = true
status_passes (some t) s = same_event_status s t

-- a bound that is the zero time is left out
abbrev pub in_window : ℕ → ℕ → ℕ → Bool
in_window start end at = (start == 0 || leb start at) && (end == 0 || ltb at end)

-- ORDER BY created_at DESC
unfoldable pub insert_latest : WebhookEvent → List WebhookEvent → List WebhookEvent
insert_latest e [] = e ∷ []
insert_latest e (x ∷ xs) =
    if leb x.created_at e.created_at then e ∷ x ∷ xs else x ∷ insert_latest e xs

unfoldable pub sort_latest : List WebhookEvent → List WebhookEvent
unfolding insert_latest
sort_latest [] = []
sort_latest (e ∷ es) = insert_latest e (sort_latest es)

-- ListWebhookEvents
unfoldable pub list_webhook_events : ℕ → ℤ → Option EventStatus → ℕ → ℕ → Db → List WebhookEvent
unfolding clamp_limit sort_latest
list_webhook_events ws limit status start end db = take (clamp_limit 50 200 limit) (
    sort_latest (
      keep
        (λ e.
          e.workspace_id == ws && status_passes status e.status && in_window start end e.created_at)
        db.webhooks))

-- ListWebhookDeadLetters
unfoldable pub list_dead_letters : ℕ → ℤ → Db → List WebhookEvent
unfolding list_webhook_events
list_dead_letters ws limit db = list_webhook_events ws limit (some dead_letter) 0 0 db

unfoldable pub one_of : ℕ → List ℕ → Bool
one_of i [] = false
one_of i (j ∷ js) = j == i || one_of i js

-- ListWebhookDeadLettersByID, whose caller has dropped the ids that are not positive
unfoldable pub list_dead_letters_by_id : ℕ → List ℕ → Db → List WebhookEvent
unfolding sort_latest one_of
list_dead_letters_by_id ws ids db =
    sort_latest
      (keep (λ e. e.workspace_id == ws && is_dead_letter e.status && one_of e.id ids) db.webhooks)

abbrev pub has_event_id : ℕ → WebhookEvent → Bool
has_event_id id e = e.id == id

abbrev pub put_result : EventStatus → ℕ → String → WebhookEvent → WebhookEvent
put_result status attempts error e = record e {
  status = status;
  attempt_count = attempts;
  last_error = error;
}

-- UpdateWebhookEventReplayResult
unfoldable pub update_replay_result : ℕ → EventStatus → ℕ → String → ℕ → Db → Db
update_replay_result id status attempts error now db = record db {
  webhooks = update_if (has_event_id id) (put_result status attempts error) db.webhooks;
}

abbrev pub missing_email : String
missing_email = "replay failed: missing email"

abbrev pub unclassified : String
unclassified = "unclassified bounce; recipient was not suppressed"

-- applyWebhookEventTx: the new status, the last error and the tables
unfoldable pub apply_event_tx : WebhookEvent → Db → (EventStatus × String) × Db
apply_event_tx e db =
    let event_type = classify_bounce e.event_type e.reason in
    if is_blank e.email
    then ((dead_letter, missing_email), db)
    else if str_eq event_type "bounce_temporary"
    then ((applied, ""), db)
    else if str_eq event_type "bounce_permanent" || str_eq event_type "complaint"
    then (
      (applied, ""),
      record db {
        suppressions =
            upsert_recipient e.workspace_id (normalize_email e.email) e.reason db.suppressions;
      },
    )
    else if str_eq event_type "unsubscribe"
    then (
      (applied, ""),
      record db {
        unsubscribes =
            upsert_recipient e.workspace_id (normalize_email e.email) e.reason db.unsubscribes;
      },
    )
    else if str_eq event_type "bounce_unclassified" || str_eq event_type "bounce"
    then ((dead_letter, unclassified), db)
    else ((dead_letter, "unsupported webhook event type: " +s event_type), db)

-- nullableString, and the NULL read back as an empty text
abbrev pub nullable : String → String
nullable s = if is_blank s then "" else s

-- the row that ProcessWebhookEventAtomic inserts
abbrev pub processing_row : WebhookEvent → WebhookEvent
processing_row e = record e {
  email = nullable e.email;
  reason = nullable e.reason;
  status = processing;
  attempt_count = 1;
  last_error = "";
}

-- the rest of ProcessWebhookEventAtomic, for a row that was inserted
unfoldable pub finish_event : WebhookEvent → Db → WebhookEvent × Db
finish_event created db =
    let ((status, error), db') = apply_event_tx created db in
    (
      record created { status = status; last_error = error },
      record db' {
        webhooks =
            update_if (has_event_id created.id)
              (λ row. record row { status = status; last_error = error }) db'.webhooks;
      },
    )

-- ProcessWebhookEventAtomic, one transaction: `row` is the event with that identity, if there is one
abbrev pub process_found : Option WebhookEvent → WebhookEvent → ℕ → Db → WebhookEvent × Db
process_found (some row) e now db = (row, db)
process_found none e now db =
    let (created, db') = insert_new (processing_row e) now db in finish_event created db'

unfoldable pub process_event_atomic : WebhookEvent → ℕ → Db → WebhookEvent × Db
process_event_atomic e now db =
    process_found (find (has_identity e.workspace_id e.identity_key) db.webhooks) e now db

abbrev pub is_open : ℕ → ℕ → WebhookEvent → Bool
is_open ws id e = e.workspace_id == ws && e.id == id && is_dead_letter e.status

abbrev pub as_replayed : EventStatus → EventStatus
as_replayed applied = replayed
as_replayed s = s

-- ReplayWebhookEventAtomic, one transaction: the event, if it was claimed
abbrev pub replay_found : Option WebhookEvent → Db → Option WebhookEvent × Db
replay_found none db = (none, db)
replay_found (some e) db =
    let ((status, error), db') = apply_event_tx e db in
    (
      some (put_result (as_replayed status) (e.attempt_count + 1) error e),
      record db' {
        webhooks =
            update_if (has_event_id e.id)
              (put_result (as_replayed status) (e.attempt_count + 1) error) db'.webhooks;
      },
    )

unfoldable pub replay_event_atomic : ℕ → ℕ → Db → Option WebhookEvent × Db
replay_event_atomic ws id db = replay_found (find (is_open ws id) db.webhooks) db
