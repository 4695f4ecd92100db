-- ===== src/Api/Laws.antt =====
-- What a request with a user's own key can change, and which request changes nothing.
use maild.Base.{
  ℕ, ◌==◌, ◌≡◌, refl, sym, ◌∙◌, false, ◌&&◌, ◌||◌, not, Option, none, some, List, [], ◌∷◌, String,
  str_eq,
}
use maild.Base.Int.{ℤ, pos}
use maild.Text.{is_blank}
use mathlib.Core.Path.{subst}
use maild.Store.Defs.{
  db_error, redis_error, message_not_found, queue_unavailable, claim_lost, bad_request,
  blocked_recipient_domain, account_not_found, conflict, no_rows, rate_limited, smtp_error, other,
  joined, Db, Result, ok, err,
}
use maild.Store.Recipients.{add_suppression, add_unsubscribe}
use maild.Store.Elsewhere.{SameElsewhere}
use maild.Store.Others.{SameElsewhere-add_suppression, SameElsewhere-add_unsubscribe}
use maild.World.{Act}
use maild.World.Keeps.{Keeps, keeps_rules, Keeps-pure, Keeps-exec, Keeps-handle, Keeps-if}
use maild.Service.Defs.{MessageService}
use maild.Service.Apart.{
  Apart, queue_message-Keeps, workspace_policy-Keeps, upsert_smtp_account-Keeps,
  set_active_smtp_account-Keeps, validate_smtp_account-Keeps, upsert_workspace_policy-Keeps,
  check_readiness-Keeps,
}
use maild.ApiKey.{
  Principal, Access, granted, denied, unauthenticated, forbidden, invalid_workspace, AccessError,
  workspace,
}
use maild.ApiKey.Laws.{workspace_own}
use maild.Domain.{Message}
use maild.Api.Messages.{CreateMessageRequest, queue_reply, create_message_handler}
use maild.Api.Recipients.{RecipientRequest, put_recipient, create_suppression, create_unsubscribe}
use maild.Api.Accounts.{
  AccountRequest, put_account, upsert_smtp_account_handler, ActivateRequest, activate_reply,
  activate_smtp_account_handler, validate_reply, validate_smtp_account_handler, PolicyRequest,
  show_policy, put_policy_request, workspace_policy_handler,
}
use maild.DomainCheck.{Resolver}
use maild.Api.Readiness.{DomainRequest, check_domain_readiness_handler}
use maild.Api.Defs.{
  on_values, on_number, workspace_from_query, parse_int64_query, Response, fail, access_error,
  on_access, resolve_workspace, Query, decoded, internal_or, calling,
}

-- a request whose principal is a valid one of this workspace
pub record IsUser (p : Principal) (ws : ℕ) : Type 0 where
  pub own : p.global ≡ false
  pub at : p.workspace_id ≡ pos ws
  pub exists : (ws == 0) ≡ false

module _ (p : Principal) (ws : ℕ) (user : IsUser p ws) (before : Db) where
  abbrev pub Kept : Act Response → Type 0
  Kept m = Keeps (Apart ws before) m

  fail-Kept : (code : ℕ) (message : String) → Kept (fail code message)
  fail-Kept code message = Keeps-pure _

  access_error-Kept : (e : AccessError) → Kept (access_error e)
  access_error-Kept unauthenticated = Keeps-pure _
  access_error-Kept forbidden = Keeps-pure _
  access_error-Kept invalid_workspace = Keeps-pure _

  resolve_workspace-Kept :
      (requested : ℤ) (f : ℤ → Act Response)
      → Kept (f (pos ws))
      → Kept (resolve_workspace (some p) requested f)
  unfolding resolve_workspace
  resolve_workspace-Kept requested f k = by_access (workspace (some p) requested) refl
    where
      by_access : (a : Access) → workspace (some p) requested ≡ a → Kept (on_access f a)
      by_access (denied e) q = access_error-Kept e
      by_access (granted n) q =
          subst (λ n. Kept (f n)) (sym (workspace_own p requested n user.own q ∙ user.at)) k

  decoded-Kept :
      {A : Type 0} (o : Option A) (f : A → Act Response)
      → ((a : A) → Kept (f a))
      → Kept (decoded o f)
  decoded-Kept none f k = Keeps-pure _
  decoded-Kept (some a) f k = k a

  calling-Kept :
      {A : Type 0} (m : Act A) (f : A → Act Response)
      → Keeps (Apart ws before) m
      → ((a : A) → Kept (f a))
      → Kept (calling m f)
  calling-Kept {A} m f km kf = Keeps-handle _ _ km by_result
    where
      by_result : (r : Result A) → Kept (internal_or f r)
      by_result (ok a) = kf a
      by_result (err e) = Keeps-pure _

  workspace_from_query-Kept :
      (q : Query) (f : ℤ → Act Response)
      → Kept (f (pos ws))
      → Kept (workspace_from_query (some p) q f)
  unfolding workspace_from_query
  workspace_from_query-Kept q f k =
      by_values (q.values "workspace_id") (by_number (parse_int64_query q "workspace_id" (pos 0)))
    where
      by_number : (o : Option ℤ) → Kept (on_number (λ n. resolve_workspace (some p) n f) o)
      by_number none = Keeps-pure _
      by_number (some n) = resolve_workspace-Kept n f k

      by_values : {m : Act Response} (vs : List String) → Kept m → Kept (on_values m vs)
      by_values [] h = h
      by_values (v ∷ []) h = h
      by_values (v ∷ u ∷ vs) h = Keeps-pure _

  queue_reply-Kept : (r : Result Message) → Kept (queue_reply r)
  queue_reply-Kept (ok m) = Keeps-pure _
  queue_reply-Kept (err bad_request) = Keeps-pure _
  queue_reply-Kept (err blocked_recipient_domain) = Keeps-pure _
  queue_reply-Kept (err (rate_limited _)) = Keeps-pure _
  queue_reply-Kept (err db_error) = Keeps-pure _
  queue_reply-Kept (err redis_error) = Keeps-pure _
  queue_reply-Kept (err message_not_found) = Keeps-pure _
  queue_reply-Kept (err queue_unavailable) = Keeps-pure _
  queue_reply-Kept (err claim_lost) = Keeps-pure _
  queue_reply-Kept (err account_not_found) = Keeps-pure _
  queue_reply-Kept (err conflict) = Keeps-pure _
  queue_reply-Kept (err no_rows) = Keeps-pure _
  queue_reply-Kept (err (smtp_error _)) = Keeps-pure _
  queue_reply-Kept (err (other _)) = Keeps-pure _
  queue_reply-Kept (err (joined _ _)) = Keeps-pure _

  pub create_message_handler-Kept :
      (s : MessageService) (method : String) (body : Option CreateMessageRequest)
      → Kept (create_message_handler s (some p) method body)
  unfolding create_message_handler
  create_message_handler-Kept s method body =
      search
        (keeps_rules, decoded-Kept, resolve_workspace-Kept, queue_message-Keeps, queue_reply-Kept)
        depth 9

  recipient-Kept :
      (statement : ℕ → String → String → ℕ → Db → Db) (fallback done : String)
      (req : RecipientRequest)
      → ((e : Db) (email reason : String) (now : ℕ)
          → SameElsewhere ws before e
          → SameElsewhere ws before (statement ws email reason now e))
      → Kept (put_recipient statement fallback done (some p) req)
  recipient-Kept statement fallback done req k = resolve_workspace-Kept req.workspace_id _ (
      Keeps-if (is_blank req.email) _ _ (λ _. fail-Kept 400 _)
        (λ _. calling-Kept _ _ (Keeps-exec _ (λ st h. k st.db _ _ st.now h)) (λ _. Keeps-pure _)))

  suppression-Kept :
      (req : RecipientRequest)
      → Kept (put_recipient add_suppression "manual" "suppressed" (some p) req)
  suppression-Kept req =
      recipient-Kept add_suppression "manual" "suppressed" req
        (λ e email reason now h. SameElsewhere-add_suppression ws before e h email reason now)

  unsubscribe-Kept :
      (req : RecipientRequest)
      → Kept (put_recipient add_unsubscribe "user_unsubscribed" "unsubscribed" (some p) req)
  unsubscribe-Kept req =
      recipient-Kept add_unsubscribe "user_unsubscribed" "unsubscribed" req
        (λ e email reason now h. SameElsewhere-add_unsubscribe ws before e h email reason now)

  pub create_suppression-Kept :
      (method : String) (body : Option RecipientRequest)
      → Kept (create_suppression (some p) method body)
  unfolding create_suppression
  create_suppression-Kept method body = search (keeps_rules, decoded-Kept, suppression-Kept) depth 9

  pub create_unsubscribe-Kept :
      (method : String) (body : Option RecipientRequest)
      → Kept (create_unsubscribe (some p) method body)
  unfolding create_unsubscribe
  create_unsubscribe-Kept method body = search (keeps_rules, decoded-Kept, unsubscribe-Kept) depth 9

  put_account-Kept :
      (s : MessageService) (req : AccountRequest) (o : Option String)
      → Kept (put_account s req (pos ws) o)
  put_account-Kept s req none = fail-Kept 400 _
  put_account-Kept s req (some mode) =
      Keeps-if
        (str_eq mode "none" && (not (str_eq req.username "") || not (str_eq req.password ""))) _ _
        (λ _. fail-Kept 400 _)
        (λ _. calling-Kept _ _ (upsert_smtp_account-Keeps ws before s _ refl) (λ _. Keeps-pure _))

  pub upsert_smtp_account_handler-Kept :
      (s : MessageService) (method : String) (body : Option AccountRequest)
      → Kept (upsert_smtp_account_handler s (some p) method body)
  unfolding upsert_smtp_account_handler
  upsert_smtp_account_handler-Kept s method body =
      search (keeps_rules, decoded-Kept, resolve_workspace-Kept, put_account-Kept) depth 9

  activate_reply-Kept :
      (name : String) (r : Result (Unit {0})) → Kept (activate_reply (pos ws) name r)
  activate_reply-Kept name (ok _) = Keeps-pure _
  activate_reply-Kept name (err _) = Keeps-pure _

  pub activate_smtp_account_handler-Kept :
      (method : String) (body : Option ActivateRequest)
      → Kept (activate_smtp_account_handler (some p) method body)
  unfolding activate_smtp_account_handler
  activate_smtp_account_handler-Kept method body =
      search
        (
          keeps_rules, decoded-Kept, resolve_workspace-Kept, set_active_smtp_account-Keeps,
          activate_reply-Kept,
        )
        depth 9

  validate_reply-Kept : (r : Result String) → Kept (validate_reply (pos ws) r)
  validate_reply-Kept (ok _) = Keeps-pure _
  validate_reply-Kept (err _) = Keeps-pure _

  pub validate_smtp_account_handler-Kept :
      (s : MessageService) (method : String) (body : Option ℤ)
      → Kept (validate_smtp_account_handler s (some p) method body)
  unfolding validate_smtp_account_handler
  validate_smtp_account_handler-Kept s method body =
      search
        (
          keeps_rules, decoded-Kept, resolve_workspace-Kept, validate_smtp_account-Keeps,
          validate_reply-Kept,
        )
        depth 9

  show_policy-Kept : (s : MessageService) → Kept (show_policy s (pos ws))
  show_policy-Kept s = calling-Kept _ _ (workspace_policy-Keeps ws before s) (λ _. Keeps-pure _)

  put_policy-Kept :
      (s : MessageService) (req : PolicyRequest) → Kept (put_policy_request s (some p) req)
  put_policy-Kept s req = resolve_workspace-Kept req.workspace_id _ (
      calling-Kept _ _ (upsert_workspace_policy-Keeps ws before s _ refl user.exists)
        (λ _. show_policy-Kept s))

  pub workspace_policy_handler-Kept :
      (s : MessageService) (method : String) (q : Query) (body : Option PolicyRequest)
      → Kept (workspace_policy_handler s (some p) method q body)
  unfolding workspace_policy_handler
  workspace_policy_handler-Kept s method q body =
      search
        (keeps_rules, workspace_from_query-Kept, show_policy-Kept, decoded-Kept, put_policy-Kept)
        depth 9

  pub check_domain_readiness_handler-Kept :
      (resolver : Resolver) (method : String) (body : Option DomainRequest)
      → Kept (check_domain_readiness_handler resolver (some p) method body)
  unfolding check_domain_readiness_handler
  check_domain_readiness_handler-Kept resolver method body =
      search
        (keeps_rules, decoded-Kept, resolve_workspace-Kept, calling-Kept, check_readiness-Keeps)
        depth 9
