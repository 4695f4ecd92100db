-- ===== src/Api/Isolation.antt =====
-- The routes of the JSON API and the workspaces: what a user's request can change.
use maild.Base.{
  ℕ, ◌==◌, ◌≡◌, refl, sym, ap, ◌∙◌, Bool, true, false, ◌&&◌, ◌||◌, Option, none, some, [], ◌∷◌,
  String, arith, str_eq, eq_iff, if◌then◌else◌, Bool-cases, inl, inr,
}
use maild.Base.Int.{pos, ltb_ℤ}
use maild.Text.{mem_text}
use mathlib.Core.Path.{subst}
use maild.Store.Defs.{Db}
use maild.Store.Elsewhere.{SameElsewhere, SameElsewhere-refl}
use maild.World.{World, pure}
use maild.World.Keeps.{Keeps}
use maild.Service.Defs.{MessageService}
use maild.Service.Apart.{Apart}
use maild.ApiKey.{
  Principal, is_principal, principal_from_context, require_role, passed, status, Reply,
}
use maild.ApiKey.Laws.{require_role_lem}
use maild.Api.Defs.{Query}
use maild.Api.Accounts.{PolicyRequest, workspace_policy_handler}
use maild.Api.Routes.{
  Call, messages, suppressions, unsubscribes, smtp_accounts, activate, domains, validate, policy,
  retry, replay, roles_of, handler_of, if_passed, serve, all_roles,
}
use maild.Api.Laws.{
  IsUser, create_message_handler-Kept, create_suppression-Kept, create_unsubscribe-Kept,
  upsert_smtp_account_handler-Kept, activate_smtp_account_handler-Kept,
  validate_smtp_account_handler-Kept, check_domain_readiness_handler-Kept,
  workspace_policy_handler-Kept,
}

-- the two routes that take up messages and events again
abbrev pub takes_up_again : Call → Bool
takes_up_again (retry _ _) = true
takes_up_again (replay _ _) = true
takes_up_again _ = false

handler_of-Kept :
    (s : MessageService) (p : Principal) (ws : ℕ) (user : IsUser p ws) (before : Db) (call : Call)
    → takes_up_again call ≡ false
    → Keeps (Apart ws before) (handler_of s (some p) call)
unfolding handler_of
handler_of-Kept s p ws user before (messages method body) k =
    create_message_handler-Kept p ws user before s method body
handler_of-Kept s p ws user before (suppressions method body) k =
    create_suppression-Kept p ws user before method body
handler_of-Kept s p ws user before (unsubscribes method body) k =
    create_unsubscribe-Kept p ws user before method body
handler_of-Kept s p ws user before (smtp_accounts method body) k =
    upsert_smtp_account_handler-Kept p ws user before s method body
handler_of-Kept s p ws user before (activate method body) k =
    activate_smtp_account_handler-Kept p ws user before method body
handler_of-Kept s p ws user before (domains resolver method body) k =
    check_domain_readiness_handler-Kept p ws user before resolver method body
handler_of-Kept s p ws user before (validate method body) k =
    validate_smtp_account_handler-Kept p ws user before s method body
handler_of-Kept s p ws user before (policy method q body) k =
    workspace_policy_handler-Kept p ws user before s method q body
handler_of-Kept s p ws user before (retry method body) k = absurd cc
handler_of-Kept s p ws user before (replay method body) k = absurd cc

valid :
    (p q : Principal) → principal_from_context (some p) ≡ some q → (is_principal p ≡ true) × (p ≡ q)
valid p q h = elim (Bool-cases (is_principal p)) [
  | inl e ↦ (e, cc (sym (ap (λ b. if b then some p else none) e) ∙ h))
  | inr e ↦ absurd (cc (sym (ap (λ b. if b then some p else none) e) ∙ h))
]

-- a valid principal's workspace is a real one
IsUser-of :
    (p : Principal) (ws : ℕ)
    → p.global ≡ false
    → p.workspace_id ≡ pos ws
    → is_principal p ≡ true
    → IsUser p ws
unfolding is_principal
IsUser-of p ws g w v = record {
  own = g;
  at = w;
  exists = above (subst (λ z. ltb_ℤ (pos 0) z ≡ true) w (last_test _ _ _ _ g v));
}
  where
    last_test : (a g b c : Bool) → g ≡ false → (a && (g || (b && c))) ≡ true → c ≡ true
    last_test a g b c p q = ground (arith, p, q)

    above : ltb_ℤ (pos 0) (pos ws) ≡ true → (ws == 0) ≡ false
    above h = ground (arith, h)

-- Every route that can change the tables, but for the two that take messages and events up again:
-- a request of a user, whose principal is bound to one workspace, leaves the rows of all other
-- workspaces as they were, and the attempts and webhook events of all, whatever it asks
-- for and whatever database or queue call fails.
pub serve_isolates :
    (s : MessageService) (p : Principal) (ws : ℕ) (call : Call) (w : World)
    → p.global ≡ false
    → p.workspace_id ≡ pos ws
    → takes_up_again call ≡ false
    → SameElsewhere ws w.state.db (serve s (some p) call w).1.state.db
unfolding serve pure
serve_isolates s p ws call w g at k = by_role (require_role (roles_of call) (some p)) refl
  where
    by_role :
        (r : Reply)
        → require_role (roles_of call) (some p) ≡ r
        → SameElsewhere ws w.state.db (if_passed r (λ _. handler_of s (some p) call) w).1.state.db
    by_role (status code) e = SameElsewhere-refl ws w.state.db
    by_role (passed q) e =
        let user =
          IsUser-of p ws g at (valid p q (require_role_lem (roles_of call) (some p) q e).0).0 in
        (handler_of-Kept s p ws user w.state.db call k).at w (SameElsewhere-refl ws w.state.db)

-- a route that only looks, for a role that may only look
abbrev pub needs_more_than_viewer : Call → Bool
needs_more_than_viewer (policy method _ _) = str_eq method "POST"
needs_more_than_viewer _ = true

refused_role :
    (s : MessageService) (p : Principal) (call : Call) (w : World)
    → mem_text p.role (roles_of call) ≡ false
    → (serve s (some p) call w).1 ≡ w
unfolding serve pure
refused_role s p call w h = by_role (require_role (roles_of call) (some p)) refl
  where
    by_role :
        (r : Reply)
        → require_role (roles_of call) (some p) ≡ r
        → (if_passed r (λ _. handler_of s (some p) call) w).1 ≡ w
    by_role (status code) e = refl
    by_role (passed q) e =
        let r = require_role_lem (roles_of call) (some p) q e in
        absurd
          (cc (ap (λ (x : Principal). mem_text x.role (roles_of call)) (valid p q r.0).1, r.1, h))

not_listed :
    (role : String)
    → role ≡ "viewer"
    → (mem_text role ("admin" ∷ "operator" ∷ []) ≡ false) × (mem_text role ("admin" ∷ []) ≡ false)
unfolding mem_text
not_listed role v = (rw v refl, rw v refl)

viewer_policy :
    (s : MessageService) (p : Principal) (method : String) (q : Query) (body : Option PolicyRequest)
    (w : World)
    → p.role ≡ "viewer"
    → str_eq method "POST" ≡ true
    → (workspace_policy_handler s (some p) method q body w).1 ≡ w
unfolding workspace_policy_handler pure
viewer_policy s p method q body w v h =
    let post : method ≡ "POST" = (eq_iff method "POST").0 h in rw (post, v) refl

-- A viewer changes nothing through the routes of a `Call`, those of internal/api/http.go that can
-- change the tables, the outbox or the queue: each of them refuses the role, and the policy's route
-- refuses its POST. The routes of internal/auth, by which a user manages keys and sessions of its
-- own, are not among them, nor is a key's last_used_at.
pub serve_viewer :
    (s : MessageService) (p : Principal) (call : Call) (w : World)
    → p.role ≡ "viewer"
    → needs_more_than_viewer call ≡ true
    → (serve s (some p) call w).1 ≡ w
unfolding serve roles_of handler_of pure
serve_viewer s p (messages method body) w v h =
    refused_role s p (messages method body) w (not_listed p.role v).0
serve_viewer s p (suppressions method body) w v h =
    refused_role s p (suppressions method body) w (not_listed p.role v).1
serve_viewer s p (unsubscribes method body) w v h =
    refused_role s p (unsubscribes method body) w (not_listed p.role v).1
serve_viewer s p (smtp_accounts method body) w v h =
    refused_role s p (smtp_accounts method body) w (not_listed p.role v).1
serve_viewer s p (activate method body) w v h =
    refused_role s p (activate method body) w (not_listed p.role v).1
serve_viewer s p (domains resolver method body) w v h =
    refused_role s p (domains resolver method body) w (not_listed p.role v).0
serve_viewer s p (validate method body) w v h =
    refused_role s p (validate method body) w (not_listed p.role v).1
serve_viewer s p (retry method body) w v h =
    refused_role s p (retry method body) w (not_listed p.role v).0
serve_viewer s p (replay method body) w v h =
    refused_role s p (replay method body) w (not_listed p.role v).0
serve_viewer s p (policy method q body) w v h = by_role (require_role all_roles (some p))
  where
    by_role :
        (r : Reply) → (if_passed r (λ _. workspace_policy_handler s (some p) method q body) w).1 ≡ w
    by_role (status code) = refl
    by_role (passed _) = viewer_policy s p method q body w v h
