-- ===== src/Store/Messages.antt =====
-- internal/store/postgres/postgres.go: the statements on `messages`, `message_attempts` and
-- `metering_events`.
pub mod Laws
use maild.Base.{
  ℕ, suc, ◌+◌, Bool, true, false, ◌&&◌, ◌||◌, not, Option, none, some, List, [], ◌∷◌, ◌++◌, String,
  map, leb, ltb, ◌==◌, str_eq, if◌then◌else◌, count_if, keep, find, update_if, take,
}
use maild.Text.{to_lower, split, normalize}
use maild.Domain.{
  Status, queued, sending, unknown, same_status, Message, MessageAttempt, MeteringEvent,
}
use maild.Store.Defs.{Db, Result, ok, err, message_not_found, conflict}

abbrev pub has_id : ℕ → Message → Bool
has_id id m = m.id == id

abbrev pub has_id_status : ℕ → Status → Message → Bool
has_id_status id status m = m.id == id && same_status m.status status

-- what CreateMessage is given: the row without the columns that the database fills in
pub record Draft : Type 0 where
  pub workspace_id : ℕ
  pub from_email : String
  pub to_email : String
  pub subject : String
  pub body_text : String
  pub status : Status

-- CreateMessage
unfoldable pub create_message : Draft → ℕ → Db → Message × Db
create_message d now db =
    let m : Message = record {
      id = db.next_message_id;
      workspace_id = d.workspace_id;
      from_email = d.from_email;
      to_email = d.to_email;
      subject = d.subject;
      body_text = d.body_text;
      status = d.status;
      scheduled_at = none;
      created_at = now;
      updated_at = now;
    } in
    (m, record db { messages = db.messages ++ m ∷ []; next_message_id = suc db.next_message_id })

-- GetMessage
unfoldable pub get_message : ℕ → Db → Result Message
get_message id db = elim (find (has_id id) db.messages) [
  | some m ↦ ok m
  | none ↦ err message_not_found
]

-- `CASE WHEN $2 = 'queued' THEN scheduled_at ELSE NULL END`
abbrev pub kept_schedule : Status → Option ℕ → Option ℕ
kept_schedule queued at = at
kept_schedule _ at = none

abbrev pub put_status : Status → ℕ → Message → Message
put_status status now m = record m {
  status = status;
  scheduled_at = kept_schedule status m.scheduled_at;
  updated_at = now;
}

-- SetMessageStatus
unfoldable pub set_message_status : ℕ → Status → ℕ → Db → Db
set_message_status id status now db = record db {
  messages = update_if (has_id id) (put_status status now) db.messages;
}

-- TransitionMessageStatus: whether a row was affected
unfoldable pub transition_message_status : ℕ → Status → Status → ℕ → Db → Bool × Db
transition_message_status id source target now db = (
  ltb 0 (count_if (has_id_status id source) db.messages),
  record db { messages = update_if (has_id_status id source) (put_status target now) db.messages },
)

abbrev pub put_retry_at : ℕ → ℕ → Message → Message
put_retry_at at now m = record m { status = queued; scheduled_at = some at; updated_at = now }

-- SetMessageRetryAt
unfoldable pub set_message_retry_at : ℕ → ℕ → ℕ → Db → Bool × Db
set_message_retry_at id at now db = (
  ltb 0 (count_if (has_id_status id sending) db.messages),
  record db { messages = update_if (has_id_status id sending) (put_retry_at at now) db.messages },
)

abbrev pub due : ℕ → Option ℕ → Bool
due now none = true
due now (some at) = leb at now

-- the WHERE of ClaimQueuedMessagesForRecovery
abbrev pub recoverable : ℕ → ℕ → Message → Bool
recoverable older_than now m =
    same_status m.status queued && leb m.updated_at older_than && due now m.scheduled_at

-- ORDER BY updated_at, id
unfoldable pub insert_oldest : Message → List Message → List Message
insert_oldest m [] = m ∷ []
insert_oldest m (x ∷ xs) =
    if ltb m.updated_at x.updated_at || (m.updated_at == x.updated_at && leb m.id x.id)
    then m ∷ x ∷ xs
    else x ∷ insert_oldest m xs

unfoldable pub sort_oldest : List Message → List Message
unfolding insert_oldest
sort_oldest [] = []
sort_oldest (x ∷ xs) = insert_oldest x (sort_oldest xs)

-- sort.Slice(ids, …)
unfoldable pub insert_id : ℕ → List ℕ → List ℕ
insert_id i [] = i ∷ []
insert_id i (j ∷ js) = if leb i j then i ∷ j ∷ js else j ∷ insert_id i js

unfoldable pub sort_ids : List ℕ → List ℕ
unfolding insert_id
sort_ids [] = []
sort_ids (i ∷ is) = insert_id i (sort_ids is)

unfoldable pub mem_id : ℕ → List ℕ → Bool
mem_id i [] = false
mem_id i (j ∷ js) = j == i || mem_id i js

abbrev pub message_id : Message → ℕ
message_id m = m.id

abbrev pub put_claimed : ℕ → Message → Message
put_claimed now m = record m { updated_at = now; scheduled_at = none }

-- the common table expression `candidates`
unfoldable pub recovery_candidates : ℕ → ℕ → ℕ → Db → List ℕ
unfolding sort_oldest
recovery_candidates older_than limit now db =
    map message_id (take limit (sort_oldest (keep (recoverable older_than now) db.messages)))

-- ClaimQueuedMessagesForRecovery
unfoldable pub claim_queued_messages_for_recovery : ℕ → ℕ → ℕ → Db → List ℕ × Db
unfolding sort_ids
claim_queued_messages_for_recovery older_than limit now db =
    let ids = recovery_candidates older_than limit now db in
    (
      sort_ids ids,
      record db { messages = update_if (λ m. mem_id m.id ids) (put_claimed now) db.messages },
    )

abbrev pub is_stale : ℕ → Message → Bool
is_stale older_than m = same_status m.status sending && leb m.updated_at older_than

abbrev pub put_unknown : ℕ → Message → Message
put_unknown now m = record m { status = unknown; updated_at = now }

-- MarkStaleSendingUnknown: the number of rows affected
unfoldable pub mark_stale_sending_unknown : ℕ → ℕ → Db → ℕ × Db
mark_stale_sending_unknown older_than now db = (
  count_if (is_stale older_than) db.messages,
  record db { messages = update_if (is_stale older_than) (put_unknown now) db.messages },
)

-- COALESCE(MAX(attempt_no), 0)
unfoldable pub last_attempt_no : ℕ → List MessageAttempt → ℕ
last_attempt_no id [] = 0
last_attempt_no id (a ∷ as') =
    let rest = last_attempt_no id as' in
    if a.message_id == id && ltb rest a.attempt_no then a.attempt_no else rest

-- NextAttemptNo
unfoldable pub next_attempt_no : ℕ → Db → ℕ
next_attempt_no id db = last_attempt_no id db.attempts + 1

abbrev pub is_attempt : ℕ → ℕ → MessageAttempt → Bool
is_attempt id number a = a.message_id == id && a.attempt_no == number

-- InsertAttempt, under UNIQUE (message_id, attempt_no)
unfoldable pub insert_attempt : ℕ → ℕ → String → String → Bool → ℕ → Db → Result (Unit {0}) × Db
insert_attempt id number provider response success now db =
    let a : MessageAttempt = record {
      message_id = id;
      attempt_no = number;
      smtp_provider = provider;
      smtp_response = response;
      success = success;
      created_at = now;
    } in
    if ltb 0 (count_if (is_attempt id number) db.attempts)
    then (err conflict, db)
    else (ok tt, record db { attempts = db.attempts ++ a ∷ [] })

-- CountFailedAttemptsByProviderSince
abbrev pub in_workspace : ℕ → List Message → ℕ → Bool
in_workspace ws messages id = elim (find (has_id id) messages) [
  | some m ↦ m.workspace_id == ws
  | none ↦ false
]

unfoldable pub count_failed_attempts_since : ℕ → String → ℕ → Db → ℕ
count_failed_attempts_since ws provider since db =
    count_if
      (λ a.
        in_workspace ws db.messages a.message_id
        && str_eq a.smtp_provider provider
        && not a.success
        && leb since a.created_at)
      db.attempts

-- split_part(to_email, '@', 2)
abbrev pub second_part : List String → String
second_part (p ∷ q ∷ ps) = q
second_part _ = ""

unfoldable pub sql_domain : String → String
sql_domain email = to_lower (second_part (split b'@' email))

-- CountMessagesSince: an empty domain counts the workspace
unfoldable pub count_messages_since : ℕ → String → ℕ → Db → ℕ
unfolding sql_domain
count_messages_since ws domain since db =
    count_if
      (λ m.
        m.workspace_id == ws
        && leb since m.created_at
        && (str_eq domain "" || str_eq (sql_domain m.to_email) (normalize domain)))
      db.messages

-- InsertMeteringEvent
unfoldable pub insert_metering_event : MeteringEvent → ℕ → Db → Db
insert_metering_event e now db = record db {
  metering = db.metering ++ record e { created_at = now } ∷ [];
}
