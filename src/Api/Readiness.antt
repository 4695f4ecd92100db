-- ===== src/Api/Readiness.antt =====
-- internal/api/http.go: the handlers of a domain's readiness, the onboarding checklist and the
-- incident bundle. What the resolver answers during a request is a parameter.
use Prim.Native.String.{◌++◌ as ◌+s◌}
use maild.Base.{
  Bool, false, ◌||◌, Option, none, some, [], ◌∷◌, ◌++◌, String, str_eq, if◌then◌else◌, length,
  count_if,
}
use maild.Base.Int.{ℤ, pos, pos_part, leb_ℤ}
use maild.Text.{trim_space, to_lower, is_blank, contains}
use maild.Sanitize.{http_internal_error}
use maild.Store.Defs.{Err, other, Result, ok, err}
use maild.World.{Act, handle}
use maild.Service.Defs.{MessageService}
use maild.Service.Incident.{
  ChecklistItem, Checklist, of_bool, technical_onboarding_checklist, IncidentBundle,
  incident_bundle,
}
use maild.DomainCheck.{Resolver, Readiness, check_readiness, inspect_readiness}
use maild.ApiKey.{Principal}
use maild.Api.Defs.{
  Response, readiness_body, checklist_body, bundle_body, respond, fail, resolve_workspace, Query,
  is_not_found, get, parse_int64_query, workspace_from_query, only, decoded, calling,
}

-- checkDomainReadinessRequest
pub record DomainRequest : Type 0 where
  pub workspace_id : ℤ
  pub domain : String
  pub dkim_selector : String

-- checkDomainReadiness
unfoldable pub check_domain_readiness_handler :
    Resolver → Option Principal → String → Option DomainRequest → Act Response
check_domain_readiness_handler resolver context method body = only "POST" method (
    decoded body (λ req. resolve_workspace context req.workspace_id (λ ws.
      if is_blank req.domain
      then fail 400 "domain is required"
      else calling (check_readiness resolver (pos_part ws) req.domain req.dkim_selector)
          (λ result. respond 200 (readiness_body result)))))

-- the item of the domain
unfoldable pub domain_item : Result Readiness → ChecklistItem
domain_item (err e) = record {
  id = "domain_readiness_checked";
  done = false;
  evidence = "domain readiness check failed";
}
domain_item (ok result) = record {
  id = "domain_readiness_checked";
  done = result.ready;
  evidence =
      "spf="
      +s of_bool result.spf_valid
      +s ", dkim="
      +s of_bool result.dkim_valid
      +s ", dmarc="
      +s of_bool result.dmarc_valid;
}

unfoldable pub with_domain_item : ChecklistItem → Checklist → Checklist
with_domain_item item checklist =
    let items = checklist.items ++ item ∷ [] in
    record checklist {
      items = items;
      total = length items;
      completed = count_if (λ (i : ChecklistItem). i.done) items;
    }

abbrev pub completed_checklist : Resolver → String → String → Checklist → Checklist
completed_checklist resolver domain dkim_selector checklist =
    if str_eq domain ""
    then checklist
    else with_domain_item (domain_item (inspect_readiness resolver domain dkim_selector)) checklist

-- onboardingChecklist
unfoldable pub onboarding_checklist_handler :
    MessageService → Resolver → Option Principal → String → Query → Act Response
unfolding domain_item with_domain_item
onboarding_checklist_handler s resolver context method q = only "GET" method (
    workspace_from_query context q (λ ws.
      calling (technical_onboarding_checklist s (pos_part ws)) (λ checklist. respond 200 (
        checklist_body (
          completed_checklist resolver (trim_space (get q "domain"))
            (trim_space (get q "dkim_selector")) checklist)))))

-- the error is the one that IncidentBundle makes for another workspace's message
abbrev pub is_mismatch : Err → Bool
is_mismatch (other text) = contains (to_lower text) "workspace mismatch"
is_mismatch _ = false

abbrev pub bundle_reply : Result IncidentBundle → Act Response
bundle_reply (ok bundle) = respond 200 (bundle_body bundle)
bundle_reply (err e) =
    if is_not_found e || is_mismatch e
    then fail 404 "message not found for workspace"
    else fail 500 (http_internal_error e)

abbrev pub bundle_for_id : ℤ → Option ℤ → Act Response
bundle_for_id ws none = fail 400 "message_id is required"
bundle_for_id ws (some id) =
    if leb_ℤ id (pos 0)
    then fail 400 "message_id is required"
    else handle (incident_bundle (pos_part ws) id) bundle_reply

-- incidentBundleExport
unfoldable pub incident_bundle_handler : Option Principal → String → Query → Act Response
incident_bundle_handler context method q = only "GET" method (
    workspace_from_query context q
      (λ ws. bundle_for_id ws (parse_int64_query q "message_id" (pos 0))))
