-- ===== src/Config/Laws.antt =====
-- What a configuration without an error provides.
use maild.Base.{
  ◌≡◌, refl, Bool, true, false, Option, none, some, List, [], ◌∷◌, ◌++◌, String, str_eq,
}
use maild.Text.{normalize}
use maild.Config.{Library, Config}
use maild.Config.Validate.{
  first_error, production_required, production_defaults, key_checks, service_checks, webhook_checks,
  failover_checks, login_checks, only_if, environment_checks, or_else, validate,
}

-- no test of the list holds
abbrev pub Passed : List (Bool × String) → Type 0
Passed [] = Unit
Passed ((bad, text) ∷ checks) = (bad ≡ false) × Passed checks

first_error-Passed : (checks : List (Bool × String)) → first_error checks ≡ none → Passed checks
unfolding first_error
first_error-Passed [] h = tt
first_error-Passed ((true, text) ∷ checks) h = absurd cc
first_error-Passed ((false, text) ∷ checks) h = (refl, first_error-Passed checks h)

Passed-first_error : (checks : List (Bool × String)) → Passed checks → first_error checks ≡ none
unfolding first_error
Passed-first_error [] h = refl
Passed-first_error ((bad, text) ∷ checks) h = rw (h.0) (Passed-first_error checks h.1)

pub Passed-append : (xs ys : List (Bool × String)) → Passed (xs ++ ys) → Passed xs × Passed ys
Passed-append [] ys h = (tt, h)
Passed-append ((bad, text) ∷ xs) ys h = let (l, r) = Passed-append xs ys h.1 in ((h.0, l), r)

or_else-none : (a b : Option String) → or_else a b ≡ none → (a ≡ none) × (b ≡ none)
or_else-none none b h = (refl, h)
or_else-none (some text) b h = absurd cc

-- every group of checks passes, those that depend on a switch where it is on
pub record IsValid (lib : Library) (c : Config) : Type 0 where
  pub environment : Passed (environment_checks c)
  pub production : Passed (
      only_if
        (str_eq (normalize c.app_env) "production")
        (production_required c ++ production_defaults lib c))
  pub keys : Passed (key_checks c)
  pub services : Passed (service_checks c)
  pub webhooks : Passed (only_if c.webhooks_enabled (webhook_checks c))
  pub failover : Passed (only_if c.auto_failover_enabled (failover_checks c))
  pub login : Passed (login_checks c)

pub validate-IsValid : (lib : Library) (c : Config) → validate lib c ≡ none → IsValid lib c
unfolding validate
validate-IsValid lib c h =
    let e1 = or_else-none _ _ h in
    let e2 = or_else-none _ _ e1.1 in
    let e3 = or_else-none _ _ e2.1 in
    let e4 = or_else-none _ _ e3.1 in
    let e5 = or_else-none _ _ e4.1 in
    let e6 = or_else-none _ _ e5.1 in
    record {
      environment = first_error-Passed _ e1.0;
      production = first_error-Passed _ e2.0;
      keys = first_error-Passed _ e3.0;
      services = first_error-Passed _ e4.0;
      webhooks = first_error-Passed _ e5.0;
      failover = first_error-Passed _ e6.0;
      login = first_error-Passed _ e6.1;
    }

IsValid-validate : (lib : Library) (c : Config) → IsValid lib c → validate lib c ≡ none
unfolding validate
IsValid-validate lib c v =
    let run : (a b : Option String) → a ≡ none → b ≡ none → or_else a b ≡ none =
      λ a b p q. rw p q in
    run _ _ (Passed-first_error _ v.environment) (
      run _ _ (Passed-first_error _ v.production) (
        run _ _ (Passed-first_error _ v.keys) (
          run _ _ (Passed-first_error _ v.services) (
            run _ _ (Passed-first_error _ v.webhooks)
              (run _ _ (Passed-first_error _ v.failover) (Passed-first_error _ v.login))))))
