-- ===== src/Config/Uses.antt =====
-- What a configuration that Validate accepts means for the parts that are built from it: the secrets
-- of production, the API keys of the middleware, and the login of the default relay.

use maild.Base.{
  ◌≡◌, ◌≢◌, ◌⊎◌, refl, sym, ◌∙◌, ap, Bool, true, false, ◌&&◌, not, Option, none, some, List, [],
  ◌∷◌, String, arith, str_eq, eq_iff, eq_refl, if◌then◌else◌, Bool-cases, inl, inr,
}
use maild.Base.Int.{pos}
use maild.Text.{normalize, is_blank, mem_text, trim_space, trim_left, trim_right}
use maild.Text.Laws.{normalize_idem}
use maild.Smtp.{
  has_login, Credentials, good_server, validate_dialog, connect, authenticate, open_session,
  normalize_tls_mode,
}
use maild.Store.Defs.{ok}
use maild.ApiKey.{resolve_role, passed, of_role, api_key_middleware, Lookup}
use maild.Config.{
  Library, Environment, Config, load, get_env, or_fallback, default_credentials, is_production,
  app_env_of,
}
use maild.Config.Validate.{
  validate, key_checks, production_required, production_defaults, service_checks,
}
use maild.Config.Laws.{IsValid, validate-IsValid, Passed, Passed-append}

-- the variables that validateProductionConfig requires, less the port
abbrev pub required_texts : List String
required_texts =
    "ADMIN_API_KEY" ∷ "OPERATOR_API_KEY" ∷ "ENCRYPTION_KEY_BASE64" ∷ "POSTGRES_DSN" ∷ "REDIS_ADDR"
    ∷ "SMTP_HOST" ∷ "SMTP_FROM" ∷ []

in_production :
    (lib : Library) (c : Config)
    → IsValid lib c
    → str_eq (normalize c.app_env) "production" ≡ true
    → Passed (production_required c) × Passed (production_defaults lib c)
in_production lib c v e =
    Passed-append (production_required c) (production_defaults lib c)
      (let p = v.production in rw e at p)

abbrev Each : (String → Type 0) → List String → Type 0
Each P [] = Unit
Each P (k ∷ ks) = P k × Each P ks

each_mem :
    (P : String → Type 0) (keys : List String) (key : String)
    → Each P keys
    → mem_text key keys ≡ true
    → P key
unfolding mem_text
each_mem P [] key h m = absurd cc
each_mem P (k ∷ ks) key h m = elim (Bool-cases (str_eq k key)) [
  | inl e ↦ rw (← (eq_iff k key).0 e) (h.0)
  | inr e ↦ each_mem P ks key (h.1) (rw e at m)
]

-- a required variable that is read as a text which is not blank is set, where there is no fallback
is_set :
    (env : Environment) (key fallback : String) (production : Bool)
    → production ≡ true
    → is_blank (get_env env key (if production then "" else fallback)) ≡ false
    → env key ≢ none
unfolding get_env trim_space trim_right trim_left
is_set env key fallback production p h k =
    let blank : is_blank (or_fallback (if production then "" else fallback) (env key)) ≡ true =
      rw (p, k) refl in
    absurd (cc (blank, h))

-- In production no secret and no address of a service has a fallback: what Load reads passes
-- Validate only if each of the seven required variables is set.
pub load_required :
    (lib : Library) (env : Environment) (key : String)
    → is_production (app_env_of env) ≡ true
    → mem_text key required_texts ≡ true
    → validate lib (load lib env) ≡ none
    → env key ≢ none
unfolding load production_required
load_required lib env key p m h =
    let s : Passed (production_required (load lib env)) =
      (in_production lib _ (validate-IsValid lib _ h) (rw (normalize_idem _) p)).0 in
    each_mem (λ k. env k ≢ none) required_texts key
      (
        is_set env _ _ _ p s.0,
        (
          is_set env _ _ _ p s.1.0,
          (
            is_set env _ _ _ p s.1.1.0,
            (
              is_set env _ _ _ p s.1.1.1.0,
              (
                is_set env _ _ _ p s.1.1.1.1.0,
                (is_set env _ _ _ p s.1.1.1.1.1.0, (is_set env _ _ _ p s.1.1.1.1.1.1.1.0, tt)),
              ),
            ),
          ),
        ),
      )
      m

differ_sym : (s t : String) → str_eq s t ≡ false → str_eq t s ≡ false
differ_sym s t h = ground (arith, h, (eq_iff t s).0, (eq_iff s t).1)

resolve_role_keys :
    (admin operator : String)
    → str_eq admin "" ≡ false
    → str_eq operator "" ≡ false
    → str_eq admin operator ≡ false
    → (resolve_role admin admin operator ≡ some "admin")
      × (resolve_role operator admin operator ≡ some "operator")
unfolding resolve_role
resolve_role_keys admin operator a o d =
    (rw (a, eq_refl admin) refl, rw (o, a, differ_sym admin operator d, eq_refl operator) refl)

key_not_empty : (key : String) → is_blank key ≡ false → str_eq key "" ≡ false
unfolding trim_space trim_left trim_right
key_not_empty key h = elim (Bool-cases (str_eq key "")) [
  | inl e ↦ absurd (cc (sym h ∙ ap is_blank ((eq_iff key "").0 e)))
  | inr e ↦ e
]

-- With the two instance keys of a configuration that Validate accepts, each of them that has no
-- space around it opens every workspace in its own role, whatever the key store answers.
pub validate-api_key_middleware :
    (lib : Library) (c : Config) (hash : String → String) (store : Option (String → Lookup))
    (key role : String)
    → validate lib c ≡ none
    → ((key ≡ c.admin_api_key) × (role ≡ "admin"))
      ⊎ ((key ≡ c.operator_api_key) × (role ≡ "operator"))
    → trim_space key ≡ key
    → api_key_middleware hash c.admin_api_key c.operator_api_key store key
      ≡ passed (record { user_id = pos 0; workspace_id = pos 0; role = role; global = true })
unfolding api_key_middleware key_checks
validate-api_key_middleware lib c hash store key role h which trimmed = rw trimmed (
    ap (of_role hash key store) (elim which [
      | inl p ↦
          ap (λ k. resolve_role k c.admin_api_key c.operator_api_key) p.0
          ∙ roles.0
          ∙ ap some (sym p.1)
      | inr p ↦
          ap (λ k. resolve_role k c.admin_api_key c.operator_api_key) p.0
          ∙ roles.1
          ∙ ap some (sym p.1)
    ]))
  where
    k : Passed (key_checks c)
    k = (validate-IsValid lib c h).keys

    roles :
        (resolve_role c.admin_api_key c.admin_api_key c.operator_api_key ≡ some "admin")
        × (resolve_role c.operator_api_key c.admin_api_key c.operator_api_key ≡ some "operator")
    roles =
        resolve_role_keys c.admin_api_key c.operator_api_key (key_not_empty c.admin_api_key k.1.0)
          (key_not_empty c.operator_api_key k.1.1.0) k.1.1.1.0

-- a mode that Validate lets through
abbrev IsChecked : String → Type 0
IsChecked mode =
    (not (str_eq mode "starttls") && not (str_eq mode "implicit_tls") && not (str_eq mode "none"))
    ≡ false

checked_cases :
    (mode : String)
    → IsChecked mode
    → (mode ≡ "starttls") ⊎ ((mode ≡ "implicit_tls") ⊎ (mode ≡ "none"))
checked_cases mode h =
    ground
      (arith, (eq_iff mode "starttls").0, (eq_iff mode "implicit_tls").0, (eq_iff mode "none").0)

-- no refusal of the client itself stands before the relay's answers
opens :
    (mode : String) (login : Bool) (c : Credentials)
    → (mode ≡ "starttls") ⊎ ((mode ≡ "implicit_tls") ⊎ (mode ≡ "none"))
    → (str_eq mode "none" && login) ≡ false
    → c.tls_mode ≡ (if str_eq mode "" then "starttls" else mode)
    → has_login c ≡ login
    → (validate_dialog good_server c).result ≡ ok tt
unfolding validate_dialog connect open_session authenticate normalize_tls_mode
opens mode login c (inl m) k e u =
    let t : c.tls_mode ≡ "starttls" = rw m at e in
    elim (Bool-cases (has_login c)) [ inl l ↦ rw (t, l) refl | inr l ↦ rw (t, l) refl ]
opens mode login c (inr (inl m)) k e u =
    let t : c.tls_mode ≡ "implicit_tls" = rw m at e in
    elim (Bool-cases (has_login c)) [ inl l ↦ rw (t, l) refl | inr l ↦ rw (t, l) refl ]
opens mode login c (inr (inr m)) k e u =
    let t : c.tls_mode ≡ "none" = rw m at e in
    let none_given : login ≡ false = rw m at k in rw (t, u, none_given) refl

-- The default relay's credentials of a configuration that Validate accepts are never refused by
-- the client itself: with a relay that offers STARTTLS and answers every command well, the dialog
-- succeeds.
pub validate-validate_dialog :
    (lib : Library) (c : Config)
    → validate lib c ≡ none
    → (validate_dialog good_server (default_credentials c)).result ≡ ok tt
unfolding default_credentials service_checks
validate-validate_dialog lib c h =
    let s : Passed (service_checks c) = (validate-IsValid lib c h).services in
    opens c.smtp_tls_mode _ (default_credentials c) (checked_cases c.smtp_tls_mode s.1.1.1.1.0)
      s.1.1.1.1.1.0 refl refl
