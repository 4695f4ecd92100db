-- ===== src/ApiKey.antt =====
-- internal/auth/apikey.go: who a request speaks for, and which workspace it may act on. The answer of
-- the middleware is the principal that the next handler sees, or a status. AuthenticateAPIKey of
-- internal/store/postgres/user.go is a parameter, with its answer only: that it also sets
-- last_used_at of the key is not modelled.
pub mod Laws
use maild.Base.{
  ℕ, Bool, true, false, ◌&&◌, ◌||◌, not, Option, none, some, List, ◌∷◌, String, ◌==◌, str_eq,
  if◌then◌else◌,
}
use maild.Base.Int.{ℤ, pos, negsuc, ltb_ℤ}
use maild.Text.{trim_space, mem_text}

pub record Principal : Type 0 where
  pub user_id : ℤ
  pub workspace_id : ℤ
  pub role : String
  pub global : Bool

-- validRole
unfoldable pub valid_role : String → Bool
valid_role role = str_eq role "admin" || str_eq role "operator" || str_eq role "viewer"

-- the test of PrincipalFromContext
unfoldable pub is_principal : Principal → Bool
unfolding valid_role
is_principal p =
    valid_role p.role && (p.global || (ltb_ℤ (pos 0) p.user_id && ltb_ℤ (pos 0) p.workspace_id))

abbrev pub checked : Principal → Option Principal
checked p = if is_principal p then some p else none

-- PrincipalFromContext
abbrev pub principal_from_context : Option Principal → Option Principal
principal_from_context none = none
principal_from_context (some p) = checked p

-- resolveRole
unfoldable pub resolve_role : String → String → String → Option String
resolve_role provided admin_key operator_key =
    if str_eq provided ""
    then none
    else if not (str_eq admin_key "") && str_eq provided admin_key
    then some "admin"
    else if not (str_eq operator_key "") && str_eq provided operator_key
    then some "operator"
    else none

-- domain.APIKeyIdentity, the parts that are used
pub record ApiKeyIdentity : Type 0 where
  pub user_id : ℤ
  pub workspace_id : ℤ
  pub role : String

-- the answer of APIKeyStore.AuthenticateAPIKey
pub data Lookup : Type 0 where
  found : ApiKeyIdentity → Lookup
  no_rows lookup_failed : Lookup

pub data Reply : Type 0 where
  passed : Principal → Reply
  status : ℕ → Reply

abbrev pub or_unauthorized : Option Principal → Reply
or_unauthorized (some p) = passed p
or_unauthorized none = status 401

abbrev pub of_lookup : Lookup → Reply
of_lookup (found i) = or_unauthorized (
    checked (record {
      user_id = i.user_id;
      workspace_id = i.workspace_id;
      role = i.role;
      global = false;
    }))
of_lookup no_rows = status 401
of_lookup lookup_failed = status 500

abbrev pub of_store : (String → String) → String → Option (String → Lookup) → Reply
of_store hash got none = status 401
of_store hash got (some authenticate) =
    if str_eq got "" then status 401 else of_lookup (authenticate (hash got))

abbrev pub of_role : (String → String) → String → Option (String → Lookup) → Option String → Reply
of_role hash got store none = of_store hash got store
of_role hash got store (some role) =
    passed (record { user_id = pos 0; workspace_id = pos 0; role = role; global = true })

-- APIKeyMiddleware; `hash` is crypto.HashAPIKey, and `store` is absent where it is nil
unfoldable pub api_key_middleware :
    (String → String) → String → String → Option (String → Lookup) → String → Reply
unfolding resolve_role
api_key_middleware hash admin_key operator_key store header =
    of_role hash (trim_space header) store (resolve_role (trim_space header) admin_key operator_key)

pub data AccessError : Type 0 where
  unauthenticated forbidden invalid_workspace : AccessError

pub data Access : Type 0 where
  granted : ℤ → Access
  denied : AccessError → Access

abbrev pub eq_ℤ : ℤ → ℤ → Bool
eq_ℤ (pos a) (pos b) = a == b
eq_ℤ (negsuc a) (negsuc b) = a == b
eq_ℤ _ _ = false

abbrev pub workspace_of : ℤ → Option Principal → Access
workspace_of requested none = denied unauthenticated
workspace_of requested (some p) =
    if ltb_ℤ requested (pos 0)
    then denied invalid_workspace
    else if p.global
    then if eq_ℤ requested (pos 0) then granted (pos 1) else granted requested
    else if eq_ℤ requested (pos 0)
    then granted p.workspace_id
    else if eq_ℤ requested p.workspace_id
    then granted requested
    else denied forbidden

-- Workspace
unfoldable pub workspace : Option Principal → ℤ → Access
workspace context requested = workspace_of requested (principal_from_context context)

abbrev pub role_reply : List String → Option Principal → Reply
role_reply allowed none = status 401
role_reply allowed (some p) = if mem_text p.role allowed then passed p else status 403

-- RequireRole
unfoldable pub require_role : List String → Option Principal → Reply
require_role allowed context = role_reply allowed (principal_from_context context)
