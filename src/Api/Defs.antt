-- ===== src/Api/Defs.antt =====
-- Responses, and internal/api/access.go.

use maild.Base.{
  ℕ, ◌+◌, ◌*◌, ◌&&◌, not, ◌==◌, leb, Bool, true, false, Option, none, some, List, [], ◌∷◌, String,
  str_eq, if◌then◌else◌,
}
use maild.Base.Int.{ℤ, pos}
use maild.Text.{trim_space, is_blank}
use maild.Sanitize.{http_internal_error}
use maild.Domain.{Message, MessageAttempt, SmtpAccountSummary, WorkspacePolicy, WebhookEvent}
use maild.Store.Defs.{Err, message_not_found, Result, ok, err}
use maild.World.{Act, pure, handle}
use maild.Service.Retry.{RetryResult}
use maild.Service.Events.{ReplayResult}
use maild.Service.Incident.{Checklist, IncidentBundle}
use maild.DomainCheck.{Readiness}
use maild.ApiKey.{
  Principal, AccessError, unauthenticated, forbidden, invalid_workspace, Access, granted, denied,
  workspace,
}

pub data Body : Type 0 where
  text : String → Body  -- http.Error and writeError
  message_body : Message → Body
  saved : ℤ → String → String → Body  -- the workspace, what was saved, and the status
  timeline : Message → List MessageAttempt → Body
  messages_body : ℤ → List Message → Body
  events_body : ℤ → List WebhookEvent → Body
  accounts_body : ℤ → List SmtpAccountSummary → Body
  retry_body : RetryResult → Body
  replay_body : ReplayResult → Body
  policy_body : WorkspacePolicy → Body
  readiness_body : Readiness → Body
  checklist_body : Checklist → Body
  bundle_body : IncidentBundle → Body
  accepted_event : ℤ → String → String → Body
  accepted_counts : ℕ → ℕ → ℕ → ℕ → Body  -- processed, rejected, dead-lettered, total

pub record Response : Type 0 where
  pub status : ℕ
  pub body : Body

abbrev pub respond : ℕ → Body → Act Response
respond status body = pure (record { status = status; body = body })

-- http.Error, and writeError
abbrev pub fail : ℕ → String → Act Response
fail status message = respond status (text message)

abbrev pub access_error : AccessError → Act Response
access_error unauthenticated = fail 401 "unauthorized"
access_error invalid_workspace = fail 400 "invalid workspace_id"
access_error forbidden = fail 403 "forbidden"

abbrev pub on_access : (ℤ → Act Response) → Access → Act Response
on_access f (granted ws) = f ws
on_access f (denied e) = access_error e

-- resolveWorkspace, and what the handler does with the workspace
unfoldable pub resolve_workspace : Option Principal → ℤ → (ℤ → Act Response) → Act Response
resolve_workspace context requested f = on_access f (workspace context requested)

-- the query values of each key, and what strconv and time.Parse make of a text
pub record Query : Type 0 where
  pub values : String → List String
  pub parse_int : String → Option ℤ
  pub atoi : String → Option ℤ
  pub parse_time : String → Option ℕ

abbrev pub first_value : List String → String
first_value [] = ""
first_value (v ∷ _) = v

-- r.URL.Query().Get(key)
abbrev pub get : Query → String → String
get q key = first_value (q.values key)

-- parseInt64Query
unfoldable pub parse_int64_query : Query → String → ℤ → Option ℤ
parse_int64_query q key fallback =
    if str_eq (trim_space (get q key)) ""
    then some fallback
    else q.parse_int (trim_space (get q key))

abbrev pub on_number : (ℤ → Act Response) → Option ℤ → Act Response
on_number f none = fail 400 "invalid workspace_id"
on_number f (some n) = f n

abbrev pub on_values : Act Response → List String → Act Response
on_values m (_ ∷ _ ∷ _) = fail 400 "invalid workspace_id"
on_values m _ = m

-- workspaceFromQuery
unfoldable pub workspace_from_query : Option Principal → Query → (ℤ → Act Response) → Act Response
unfolding parse_int64_query resolve_workspace
workspace_from_query context q f =
    on_values
      (on_number (λ n. resolve_workspace context n f) (parse_int64_query q "workspace_id" (pos 0)))
      (q.values "workspace_id")

abbrev pub on_limit : (ℤ → Act Response) → Option ℤ → Act Response
on_limit f none = fail 400 "invalid limit"
on_limit f (some limit) = f limit

-- the limit of a listing
abbrev pub with_limit : Query → (ℤ → Act Response) → Act Response
with_limit q f =
    if is_blank (get q "limit") then f (pos 50) else on_limit f (q.atoi (get q "limit"))

abbrev pub time_or_zero : Option ℕ → ℕ
time_or_zero none = 0
time_or_zero (some t) = t

-- a bound of the window; the zero time is no bound
abbrev pub time_at : Query → String → ℕ
time_at q key =
    if str_eq (trim_space (get q key)) ""
    then 0
    else time_or_zero (q.parse_time (trim_space (get q key)))

-- parseFromToOptional
unfoldable pub parse_from_to_optional : Query → ℕ × ℕ
parse_from_to_optional q =
    let start = time_at q "from" in
    let end = time_at q "to" in
    if not (start == 0) && not (end == 0) && leb end start
    then (start, start + 24 * 3600000000000)
    else (start, end)

-- errors.Is(err, domain.ErrMessageNotFound)
abbrev pub is_not_found : Err → Bool
is_not_found message_not_found = true
is_not_found _ = false

-- only this method is allowed
abbrev pub only : String → String → Act Response → Act Response
only wanted method m = if str_eq method wanted then m else fail 405 "method not allowed"

-- `json.NewDecoder(r.Body).Decode(&req)`
abbrev pub decoded : {A : Type 0} → Option A → (A → Act Response) → Act Response
decoded none f = fail 400 "invalid JSON body"
decoded (some req) f = f req

abbrev pub internal_or : {A : Type 0} → (A → Act Response) → Result A → Act Response
internal_or f (ok a) = f a
internal_or f (err e) = fail 500 (http_internal_error e)

-- a call of the service; its error is a 500
abbrev pub calling : {A : Type 0} → Act A → (A → Act Response) → Act Response
calling m f = handle m (internal_or f)
