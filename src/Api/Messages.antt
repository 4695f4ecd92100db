-- ===== src/Api/Messages.antt =====
-- internal/api/http.go: the handlers of messages.

use maild.Base.{ℕ, ◌||◌, Option, none, some, List, String, if◌then◌else◌}
use maild.Base.Int.{ℤ, pos, pos_part, leb_ℤ}
use maild.Text.{is_blank}
use maild.Domain.{Message, MessageAttempt}
use maild.Store.Defs.{bad_request, blocked_recipient_domain, rate_limited, Result, ok, err}
use maild.World.{Act, handle, query}
use maild.Service.Defs.{MessageService}
use maild.Service.Queueing.{queue_message}
use maild.Service.Retry.{retry_messages, list_messages}
use maild.Service.Accounts.{message_timeline}
use maild.ApiKey.{Principal, granted, denied, Access, workspace}
use maild.Api.Defs.{
  is_not_found, Response, message_body, timeline, messages_body, retry_body, respond, fail,
  resolve_workspace, Query, parse_int64_query, workspace_from_query, with_limit,
  parse_from_to_optional, only, decoded, calling,
}

-- createMessageRequest
pub record CreateMessageRequest : Type 0 where
  pub workspace_id : ℤ
  pub from_email : String
  pub to_email : String
  pub subject : String
  pub body_text : String

-- the reply to QueueMessage
abbrev pub queue_reply : Result Message → Act Response
queue_reply (ok m) = respond 201 (message_body m)
queue_reply (err bad_request) = fail 400 "invalid recipient email"
queue_reply (err blocked_recipient_domain) = fail 400 "recipient domain is blocked"
queue_reply (err (rate_limited _)) = fail 429 "rate limit exceeded"
queue_reply (err _) = fail 500 "internal server error"

-- createMessage
unfoldable pub create_message_handler :
    MessageService → Option Principal → String → Option CreateMessageRequest → Act Response
create_message_handler s context method body = only "POST" method (
    decoded body (λ req. resolve_workspace context req.workspace_id (λ ws.
      if is_blank req.from_email || is_blank req.to_email || is_blank req.subject
      then fail 400 "from_email, to_email, and subject are required"
      else handle
          (queue_message s (pos_part ws) req.from_email req.to_email req.subject req.body_text)
          queue_reply)))

-- retryMessagesRequest
pub record RetryRequest : Type 0 where
  pub workspace_id : ℤ
  pub message_ids : List ℤ
  pub limit : ℤ

-- retryMessages; an empty body decodes to the empty request
unfoldable pub retry_messages_handler :
    MessageService → Option Principal → String → Option RetryRequest → Act Response
retry_messages_handler s context method body = only "POST" method (
    decoded body (λ req. resolve_workspace context req.workspace_id (λ ws.
      calling (retry_messages s (pos_part ws) req.message_ids req.limit)
        (λ result. respond 200 (retry_body result)))))

-- `auth.Workspace(ctx, message.WorkspaceID)`: another workspace's message is not found
abbrev pub show_timeline : Message × List MessageAttempt → Access → Act Response
show_timeline (m, attempts) (granted _) = respond 200 (timeline m attempts)
show_timeline _ (denied _) = fail 404 "message not found"

abbrev pub timeline_reply : Option Principal → Result (Message × List MessageAttempt) → Act Response
timeline_reply context (ok (m, attempts)) =
    show_timeline (m, attempts) (workspace context (pos m.workspace_id))
timeline_reply context (err e) =
    if is_not_found e then fail 404 "message not found" else fail 500 "internal server error"

abbrev pub with_message_id : (ℕ → Act Response) → Option ℤ → Act Response
with_message_id f none = fail 400 "message_id is required"
with_message_id f (some id) =
    if leb_ℤ id (pos 0) then fail 400 "message_id is required" else f (pos_part id)

-- messageTimeline
unfoldable pub message_timeline_handler : Option Principal → String → Query → Act Response
unfolding parse_int64_query
message_timeline_handler context method q = only "GET" method (
    with_message_id (λ id. handle (message_timeline id) (timeline_reply context))
      (parse_int64_query q "message_id" (pos 0)))

-- messageLogs
unfoldable pub message_logs_handler : Option Principal → String → Query → Act Response
unfolding parse_from_to_optional
message_logs_handler context method q = only "GET" method (
    workspace_from_query context q (λ ws. with_limit q (λ limit.
      let (start, end) = parse_from_to_optional q in
      calling (query (λ db. ok (list_messages (pos_part ws) limit start end db)))
        (λ messages. respond 200 (messages_body ws messages)))))
