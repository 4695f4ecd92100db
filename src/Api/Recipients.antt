-- ===== src/Api/Recipients.antt =====
-- internal/api/http.go: createSuppression and createUnsubscribe.
use maild.Base.{ℕ, Option, String, if◌then◌else◌}
use maild.Base.Int.{ℤ, pos_part}
use maild.Text.{is_blank}
use maild.Store.Defs.{Db, ok}
use maild.Store.Recipients.{add_suppression, add_unsubscribe}
use maild.World.{Act, exec}
use maild.ApiKey.{Principal}
use maild.Api.Defs.{Response, saved, respond, fail, resolve_workspace, only, decoded, calling}

-- createSuppressionRequest and createUnsubscribeRequest
pub record RecipientRequest : Type 0 where
  pub workspace_id : ℤ
  pub email : String
  pub reason : String

abbrev pub reason_or : String → String → String
reason_or fallback reason = if is_blank reason then fallback else reason

-- the two handlers, for the statement, the default reason and the status
abbrev pub put_recipient :
    (ℕ → String → String → ℕ → Db → Db)
    → String
    → String
    → Option Principal
    → RecipientRequest
    → Act Response
put_recipient statement fallback status context req =
    resolve_workspace context req.workspace_id (λ ws.
      if is_blank req.email
      then fail 400 "email is required"
      else calling
          (exec (λ now db.
            (ok tt, statement (pos_part ws) req.email (reason_or fallback req.reason) now db)))
          (λ _. respond 201 (saved ws req.email status)))

-- createSuppression
unfoldable pub create_suppression :
    Option Principal → String → Option RecipientRequest → Act Response
create_suppression context method body =
    only "POST" method (decoded body (put_recipient add_suppression "manual" "suppressed" context))

-- createUnsubscribe
unfoldable pub create_unsubscribe :
    Option Principal → String → Option RecipientRequest → Act Response
create_unsubscribe context method body =
    only "POST" method
      (decoded body (put_recipient add_unsubscribe "user_unsubscribed" "unsubscribed" context))
