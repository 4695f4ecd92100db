-- ===== src/Api/Reads.antt =====
-- The routes that only read.
use maild.Base.{ℕ, ◌≡◌, refl, Option, none, some, List, [], ◌∷◌, String}
use maild.Base.Int.{ℤ, pos}
use maild.Domain.{Message, MessageAttempt}
use maild.Store.Defs.{Result, ok, err}
use maild.World.{State, World, Act, pure}
use maild.World.Keeps.{Keeps, keeps_rules, Keeps-pure, Keeps-query, Keeps-handle}
use maild.Service.Defs.{MessageService}
use maild.Service.Policy.{workspace_policy}
use maild.Service.Accounts.{smtp_accounts, message_timeline}
use maild.Service.Incident.{
  technical_onboarding_checklist, bundle_for, IncidentBundle, incident_bundle,
}
use maild.ApiKey.{
  Principal, Access, granted, denied, unauthenticated, forbidden, invalid_workspace, AccessError,
  workspace, Reply, passed, status, require_role,
}
use maild.Api.Defs.{
  Response, access_error, on_access, resolve_workspace, Query, parse_int64_query, on_number,
  on_values, workspace_from_query, on_limit, internal_or, calling,
}
use maild.Api.Messages.{
  show_timeline, timeline_reply, with_message_id, message_timeline_handler, message_logs_handler,
}
use maild.Api.Accounts.{list_smtp_accounts_handler}
use maild.Api.Readiness.{
  bundle_reply, bundle_for_id, onboarding_checklist_handler, incident_bundle_handler,
}
use maild.Api.Webhooks.{
  StatusFilter, every, status_is, nothing, list_filtered, webhook_logs_handler,
}
use maild.Api.Routes.{
  ReadCall, list_accounts, timeline, checklist, bundle, message_logs, webhook_logs, read_handler_of,
  if_passed, all_roles, serve_read,
}

module _ (P : State → Type 0) where
  access_error-Same : (e : AccessError) → Keeps P (access_error e)
  access_error-Same unauthenticated = Keeps-pure _
  access_error-Same forbidden = Keeps-pure _
  access_error-Same invalid_workspace = Keeps-pure _

  on_access-Same :
      (f : ℤ → Act Response) (a : Access) → ((ws : ℤ) → Keeps P (f ws)) → Keeps P (on_access f a)
  on_access-Same f (granted ws) k = k ws
  on_access-Same f (denied e) k = access_error-Same e

  resolve_workspace-Same :
      (context : Option Principal) (requested : ℤ) (f : ℤ → Act Response)
      → ((ws : ℤ) → Keeps P (f ws))
      → Keeps P (resolve_workspace context requested f)
  unfolding resolve_workspace
  resolve_workspace-Same context requested f k = on_access-Same f (workspace context requested) k

  on_number-Same :
      (f : ℤ → Act Response) (o : Option ℤ) → ((n : ℤ) → Keeps P (f n)) → Keeps P (on_number f o)
  on_number-Same f none k = Keeps-pure _
  on_number-Same f (some n) k = k n

  on_values-Same : (m : Act Response) (vs : List String) → Keeps P m → Keeps P (on_values m vs)
  on_values-Same m [] k = k
  on_values-Same m (v ∷ []) k = k
  on_values-Same m (v ∷ u ∷ vs) k = Keeps-pure _

  workspace_from_query-Same :
      (context : Option Principal) (q : Query) (f : ℤ → Act Response)
      → ((ws : ℤ) → Keeps P (f ws))
      → Keeps P (workspace_from_query context q f)
  unfolding workspace_from_query
  workspace_from_query-Same context q f k = on_values-Same _ (q.values "workspace_id") (
      on_number-Same _ (parse_int64_query q "workspace_id" (pos 0))
        (λ n. resolve_workspace-Same context n f k))

  on_limit-Same :
      (f : ℤ → Act Response) (o : Option ℤ) → ((n : ℤ) → Keeps P (f n)) → Keeps P (on_limit f o)
  on_limit-Same f none k = Keeps-pure _
  on_limit-Same f (some n) k = k n

  calling-Same :
      {A : Type 0} (m : Act A) (f : A → Act Response)
      → Keeps P m
      → ((a : A) → Keeps P (f a))
      → Keeps P (calling m f)
  calling-Same {A} m f km kf = Keeps-handle _ _ km by_result
    where
      by_result : (r : Result A) → Keeps P (internal_or f r)
      by_result (ok a) = kf a
      by_result (err e) = Keeps-pure _

  list_filtered-Same :
      (ws : ℕ) (limit : ℤ) (filter : StatusFilter) (start end : ℕ)
      → Keeps P (list_filtered ws limit filter start end)
  list_filtered-Same ws limit every start end = Keeps-query _
  list_filtered-Same ws limit (status_is _) start end = Keeps-query _
  list_filtered-Same ws limit nothing start end = Keeps-query _

  timeline_reply-Same :
      (context : Option Principal) (r : Result (Message × List MessageAttempt))
      → Keeps P (timeline_reply context r)
  timeline_reply-Same context (ok (m, attempts)) =
      by_access (workspace context (pos m.workspace_id))
    where
      by_access : (a : Access) → Keeps P (show_timeline (m, attempts) a)
      by_access (granted _) = Keeps-pure _
      by_access (denied _) = Keeps-pure _
  timeline_reply-Same context (err e) = search keeps_rules

  with_message_id-Same :
      (f : ℕ → Act Response) (o : Option ℤ)
      → ((n : ℕ) → Keeps P (f n))
      → Keeps P (with_message_id f o)
  with_message_id-Same f none k = Keeps-pure _
  with_message_id-Same f (some n) k = search (keeps_rules, k)

  message_timeline-Same : (id : ℕ) → Keeps P (message_timeline id)
  unfolding message_timeline
  message_timeline-Same id = search keeps_rules depth 9

  bundle_for-Same : (ws id : ℕ) (m : Message × List MessageAttempt) → Keeps P (bundle_for ws id m)
  unfolding bundle_for
  bundle_for-Same ws id (m, attempts) = search keeps_rules depth 9

  incident_bundle-Same : (ws : ℕ) (id : ℤ) → Keeps P (incident_bundle ws id)
  unfolding incident_bundle
  incident_bundle-Same ws id = search (keeps_rules, message_timeline-Same, bundle_for-Same) depth 9

  workspace_policy-Same : (s : MessageService) (ws : ℕ) → Keeps P (workspace_policy s ws)
  unfolding workspace_policy
  workspace_policy-Same s ws = search keeps_rules depth 9

  technical_onboarding_checklist-Same :
      (s : MessageService) (ws : ℕ) → Keeps P (technical_onboarding_checklist s ws)
  unfolding technical_onboarding_checklist
  technical_onboarding_checklist-Same s ws = search (keeps_rules, workspace_policy-Same) depth 12

  bundle_reply-Same : (r : Result IncidentBundle) → Keeps P (bundle_reply r)
  bundle_reply-Same (ok b) = Keeps-pure _
  bundle_reply-Same (err e) = search keeps_rules

  bundle_for_id-Same : (ws : ℤ) (o : Option ℤ) → Keeps P (bundle_for_id ws o)
  bundle_for_id-Same ws none = Keeps-pure _
  bundle_for_id-Same ws (some id) =
      search (keeps_rules, incident_bundle-Same, bundle_reply-Same) depth 9

  read_handler_of-Same :
      (s : MessageService) (context : Option Principal) (call : ReadCall)
      → Keeps P (read_handler_of s context call)
  unfolding read_handler_of list_smtp_accounts_handler message_timeline_handler
      onboarding_checklist_handler incident_bundle_handler message_logs_handler webhook_logs_handler
      smtp_accounts
  read_handler_of-Same s context (list_accounts method q) =
      search (keeps_rules, workspace_from_query-Same, calling-Same) depth 9
  read_handler_of-Same s context (timeline method q) =
      search (keeps_rules, with_message_id-Same, message_timeline-Same, timeline_reply-Same) depth 9
  read_handler_of-Same s context (checklist resolver method q) =
      search
        (keeps_rules, workspace_from_query-Same, calling-Same, technical_onboarding_checklist-Same)
        depth 9
  read_handler_of-Same s context (bundle method q) =
      search (keeps_rules, workspace_from_query-Same, bundle_for_id-Same) depth 9
  read_handler_of-Same s context (message_logs method q) =
      search (keeps_rules, workspace_from_query-Same, on_limit-Same, calling-Same) depth 12
  read_handler_of-Same s context (webhook_logs method q) =
      search
        (keeps_rules, workspace_from_query-Same, on_limit-Same, calling-Same, list_filtered-Same)
        depth 12

-- The reading routes, the onboarding checklist with its check of a domain and the incident bundle
-- among them, change nothing that is stored, whoever asks and whatever fails.
pub serve_read_keeps :
    (s : MessageService) (context : Option Principal) (call : ReadCall) (w : World)
    → (serve_read s context call w).1.state ≡ w.state
unfolding serve_read pure
serve_read_keeps s context call w = by_role (require_role all_roles context)
  where
    by_role : (r : Reply) → (if_passed r (λ _. read_handler_of s context call) w).1.state ≡ w.state
    by_role (status code) = refl
    by_role (passed p) = (read_handler_of-Same (λ st. st ≡ w.state) s context call).at w refl
