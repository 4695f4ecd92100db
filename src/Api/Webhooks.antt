-- ===== src/Api/Webhooks.antt =====
-- internal/api/http.go: receiveWebhookEvent, webhookLogs and replayWebhookDeadLetters.

use Prim.Native.String.{◌++◌ as ◌+s◌}
use maild.Base.{
  ℕ, zero, suc, ◌+◌, ◌&&◌, ◌==◌, ltb, Option, none, some, List, [], ◌∷◌, String, str_eq,
  if◌then◌else◌,
}
use maild.Base.Int.{ℤ, pos, pos_part, ltb_ℤ}
use maild.Text.{trim_space, normalize, to_lower}
use maild.ApiKey.{Principal, eq_ℤ}
use maild.Domain.{
  EventStatus, processing, applied, dead_letter, replayed, is_dead_letter, WebhookEvent,
}
use maild.Store.Defs.{other, ok}
use maild.Store.Webhooks.{list_webhook_events}
use maild.World.{Act, pure, raise, ◌>>=◌, query, clock}
use maild.Service.Defs.{MessageService}
use maild.Service.Events.{process_webhook_event, record_dead_letter, replay_dead_letters}
use maild.Webhook.{Library, Verifier, Verdict, accepted, refused, verify}
use maild.Webhook.Json.{Value}
use maild.Webhook.Parse.{Request, Outcome, parsed, invalid, parse_events}
use maild.Api.Defs.{
  Response, replay_body, accepted_event, accepted_counts, events_body, respond, fail,
  resolve_workspace, Query, get, workspace_from_query, with_limit, parse_from_to_optional, only,
  decoded, calling,
}

-- the part of the Handler that webhooks use, with the libraries
pub record Receiver : Type 0 where
  pub service : MessageService
  pub verifier : Verifier
  pub library : Library
  pub decode : String → Option Value

-- what a webhook request carries; no body where reading it fails
pub record Delivery : Type 0 where
  pub method : String
  pub timestamp_header : String
  pub signature_header : String
  pub body : Option String

-- io.LimitReader
unfoldable pub limit_text : String → ℕ → String
limit_text String.[] n = String.[]
limit_text (String.◌∷◌ c s) zero = String.[]
limit_text (String.◌∷◌ c s) (suc n) = String.◌∷◌ c (limit_text s n)

abbrev pub first_workspace : ℤ → ℤ
first_workspace ws = if eq_ℤ ws (pos 0) then pos 1 else ws

-- ProcessWebhookEvent; no row of the tables has a negative workspace, which a foreign key refuses
abbrev pub process_for :
    MessageService → ℤ → String → String → String → String → String → Act WebhookEvent
process_for s ws event_type email reason raw identity =
    if ltb_ℤ ws (pos 0)
    then raise (other "violates foreign key constraint")
    else process_webhook_event s (pos_part ws) event_type email reason raw identity

-- the counters of the loop, and the first event that was processed
pub record Tally : Type 0 where
  pub processed : ℕ
  pub rejected : ℕ
  pub dead_lettered : ℕ
  pub first : Option Request

abbrev pub or_first : Option Request → Request → Option Request
or_first none r = some r
or_first (some f) r = some f

abbrev pub count_event : Request → WebhookEvent → Tally → Tally
count_event r e t = record t {
  processed = suc t.processed;
  dead_lettered = if is_dead_letter e.status then suc t.dead_lettered else t.dead_lettered;
  first = or_first t.first r;
}

-- the request as the loop passes it on
abbrev pub trimmed : Request → Request
trimmed r = record r {
  workspace_id = first_workspace r.workspace_id;
  event_type = normalize r.event_type;
  email = trim_space r.email;
  reason = trim_space r.reason;
}

-- one round of the loop
unfoldable pub receive_one : MessageService → String → Request → Tally → Act Tally
receive_one s raw r t =
    let q = trimmed r in
    if str_eq q.email "" then pure (record t { rejected = suc t.rejected }) else (do
      e ← process_for s q.workspace_id q.event_type q.email q.reason raw q.identity
      pure (count_event q e t))

-- the loop; an error ends it
unfoldable pub receive_all : MessageService → String → List Request → Tally → Act Tally
unfolding receive_one
receive_all s raw [] t = pure t
receive_all s raw (r ∷ rs) t = do t' ← receive_one s raw r t; receive_all s raw rs t'

abbrev pub workspace_of_first : List Request → ℕ
workspace_of_first [] = 1
workspace_of_first (r ∷ _) = if ltb_ℤ (pos 0) r.workspace_id then pos_part r.workspace_id else 1

-- the row for the records that were rejected
unfoldable pub record_rejected : MessageService → String → List Request → Tally → Act Tally
record_rejected s raw events t =
    if ltb 0 t.rejected
    then (do
      _ ←
          record_dead_letter s (workspace_of_first events) "unknown" "" "rejected_records"
            "webhook payload contained unsupported or incomplete records" raw 1
      pure (record t { dead_lettered = suc t.dead_lettered }))
    else pure t

abbrev pub counts_reply : Tally → Act Response
counts_reply t =
    respond 202 (accepted_counts t.processed t.rejected t.dead_lettered (t.processed + t.rejected))

abbrev pub one_reply : Tally → Option Request → Act Response
one_reply t none = counts_reply t
one_reply t (some r) = respond 202 (accepted_event r.workspace_id r.event_type r.email)

abbrev pub tally_reply : Tally → Act Response
tally_reply t =
    if t.processed == 0
    then fail 400 "invalid webhook payload"
    else if t.processed == 1 && t.rejected == 0
    then one_reply t t.first
    else counts_reply t

abbrev pub no_tally : ℕ → Tally
no_tally rejected = record { processed = 0; rejected = rejected; dead_lettered = 0; first = none }

abbrev pub receive_parsed : MessageService → String → Outcome → Act Response
receive_parsed s raw (invalid reason rejected) =
    calling
      (record_dead_letter s 1 "unknown" "" "invalid_payload" ("invalid webhook payload: " +s reason)
        raw 1)
      (λ _. respond 202 (accepted_counts 0 1 1 1))
receive_parsed s raw (parsed events rejected) =
    calling (receive_all s raw events (no_tally rejected) >>= record_rejected s raw events)
      tally_reply

abbrev pub receive_verified : Receiver → String → Verdict → Act Response
receive_verified h raw (refused e) = fail 401 "invalid webhook signature"
receive_verified h raw accepted =
    receive_parsed h.service raw (parse_events h.library.parse_int h.decode raw)

abbrev pub receive_body : Receiver → Delivery → Option String → Act Response
receive_body h d none = fail 400 "invalid webhook payload"
receive_body h d (some body) = do
  now ← clock
  receive_verified h (limit_text body 1048576) (
      verify h.library h.verifier d.timestamp_header d.signature_header (limit_text body 1048576)
        (pos now))

-- receiveWebhookEvent
unfoldable pub receive_webhook_event : Receiver → Delivery → Act Response
unfolding receive_all record_rejected limit_text
receive_webhook_event h d = only "POST" d.method (receive_body h d d.body)

-- the status filter of the listing; an unknown one, which no row has, answers with an empty list
pub data StatusFilter : Type 0 where
  every : StatusFilter
  status_is : EventStatus → StatusFilter
  nothing : StatusFilter

unfoldable pub status_filter : String → StatusFilter
status_filter status =
    if str_eq status ""
    then every
    else if str_eq status "processing"
    then status_is processing
    else if str_eq status "applied"
    then status_is applied
    else if str_eq status "dead_letter"
    then status_is dead_letter
    else if str_eq status "replayed"
    then status_is replayed
    else nothing

abbrev pub list_filtered : ℕ → ℤ → StatusFilter → ℕ → ℕ → Act (List WebhookEvent)
list_filtered ws limit every start end =
    query (λ db. ok (list_webhook_events ws limit none start end db))
list_filtered ws limit (status_is status) start end =
    query (λ db. ok (list_webhook_events ws limit (some status) start end db))
list_filtered ws limit nothing start end = query (λ db. ok [])

-- webhookLogs
unfoldable pub webhook_logs_handler : Option Principal → String → Query → Act Response
unfolding status_filter
webhook_logs_handler context method q = only "GET" method (
    workspace_from_query context q (λ ws. with_limit q (λ limit.
      let (start, end) = parse_from_to_optional q in
      calling
        (list_filtered (pos_part ws) limit (status_filter (trim_space (to_lower (get q "status"))))
          start end)
        (λ events. respond 200 (events_body ws events)))))

-- replayWebhookDeadLettersRequest
pub record ReplayRequest : Type 0 where
  pub workspace_id : ℤ
  pub event_ids : List ℤ
  pub limit : ℤ

-- replayWebhookDeadLetters; an empty body decodes to the empty request
unfoldable pub replay_dead_letters_handler :
    MessageService → Option Principal → String → Option ReplayRequest → Act Response
replay_dead_letters_handler s context method body = only "POST" method (
    decoded body (λ req. resolve_workspace context req.workspace_id (λ ws.
      calling (replay_dead_letters s (pos_part ws) req.event_ids req.limit)
        (λ result. respond 200 (replay_body result)))))
