-- ===== src/ApiKey/Laws.antt =====
-- Which workspaces a key opens.
use maild.Base.{
  ◌≡◌, ◌≢◌, ◌∙◌, ◌⊎◌, inl, inr, sym, ap, Bool, true, false, Option, none, some, List, String, arith,
  ==_iff, str_eq, eq_iff, if◌then◌else◌, Bool-cases, Option-cases,
}
use maild.Base.Int.{ℤ, pos, negsuc}
use maild.Text.{trim_space, mem_text}
use maild.Text.Laws.{trim_space_idem}
use maild.ApiKey.{
  Principal, is_principal, principal_from_context, resolve_role, Lookup, passed, status, of_lookup,
  of_store, of_role, api_key_middleware, granted, eq_ℤ, workspace_of, workspace, role_reply,
  require_role, found, no_rows, lookup_failed, ApiKeyIdentity, or_unauthorized,
}

eq_ℤ_sound : (a b : ℤ) → eq_ℤ a b ≡ true → a ≡ b
eq_ℤ_sound (pos a) (pos b) h = ap pos ((==_iff a b).0 h)
eq_ℤ_sound (negsuc a) (negsuc b) h = ap negsuc ((==_iff a b).0 h)
eq_ℤ_sound (pos a) (negsuc b) h = absurd cc
eq_ℤ_sound (negsuc a) (pos b) h = absurd cc

own_workspace :
    (p : Principal) (requested ws : ℤ)
    → p.global ≡ false
    → workspace_of requested (some p) ≡ granted ws
    → ws ≡ p.workspace_id
own_workspace p requested ws g h = ground (arith, g, h, eq_ℤ_sound requested p.workspace_id)

-- A request whose principal is no instance key's acts on the principal's own workspace or on none,
-- whatever workspace it asks for.
pub workspace_own :
    (p : Principal) (requested ws : ℤ)
    → p.global ≡ false
    → workspace (some p) requested ≡ granted ws
    → ws ≡ p.workspace_id
unfolding workspace
workspace_own p requested ws g h = elim (Bool-cases (is_principal p)) [
  | inl e ↦
      own_workspace p requested ws g
        (sym (ap (λ b. workspace_of requested (if b then some p else none)) e) ∙ h)
  | inr e ↦ absurd (cc (sym (ap (λ b. workspace_of requested (if b then some p else none)) e) ∙ h))
]

no_global :
    (hash : String → String) (got : String) (store : Option (String → Lookup)) (p : Principal)
    → of_store hash got store ≡ passed p
    → p.global ≡ false
no_global hash got none p h = absurd cc
no_global hash got (some authenticate) p h = elim (Bool-cases (str_eq got "")) [
  | inl e ↦
      absurd
        (cc (sym (ap (λ b. if b then status 401 else of_lookup (authenticate (hash got))) e) ∙ h))
  | inr e ↦
      of_found (authenticate (hash got))
        (sym (ap (λ b. if b then status 401 else of_lookup (authenticate (hash got))) e) ∙ h)
]
  where
    of_check :
        (i : ApiKeyIdentity) (b : Bool)
        → or_unauthorized (
            if b
            then some (record {
              user_id = i.user_id;
              workspace_id = i.workspace_id;
              role = i.role;
              global = false;
            })
            else none)
          ≡ passed p
        → p.global ≡ false
    of_check i true k = cc
    of_check i false k = absurd cc

    of_found : (r : Lookup) → of_lookup r ≡ passed p → p.global ≡ false
    of_found (found i) k = of_check i (is_principal _) k
    of_found no_rows k = absurd cc
    of_found lookup_failed k = absurd cc

-- the header is one of the two instance keys, which is not empty
abbrev pub IsInstanceKey : String → String → String → Type 0
IsInstanceKey got admin_key operator_key =
    ((str_eq admin_key "" ≡ false) × (got ≡ admin_key))
    ⊎ ((str_eq operator_key "" ≡ false) × (got ≡ operator_key))

resolve_role-IsInstanceKey :
    (got admin_key operator_key : String) {role : String}
    → resolve_role got admin_key operator_key ≡ some role
    → IsInstanceKey got admin_key operator_key
unfolding resolve_role
resolve_role-IsInstanceKey got admin_key operator_key h =
    ground (arith, h, (eq_iff got admin_key).0, (eq_iff got operator_key).0)

-- The middleware lets a request act on every workspace only if its trimmed header is one of the two
-- instance keys and that key is not empty, whatever the store of the users' keys answers.
pub api_key_middleware-IsInstanceKey :
    (hash : String → String) (admin_key operator_key : String) (store : Option (String → Lookup))
    (header : String) (p : Principal)
    → api_key_middleware hash admin_key operator_key store header ≡ passed p
    → p.global ≡ true
    → IsInstanceKey (trim_space header) admin_key operator_key
unfolding api_key_middleware
api_key_middleware-IsInstanceKey hash admin_key operator_key store header p h g =
    elim (Option-cases (resolve_role (trim_space header) admin_key operator_key)) [
      | inl e ↦ absurd (
          cc (
            g,
            no_global hash (trim_space header) store p
                (sym (ap (λ r. of_role hash (trim_space header) store r) e) ∙ h),
          ))
      | inr (role, e) ↦ resolve_role-IsInstanceKey (trim_space header) admin_key operator_key e
    ]

role_passed :
    (allowed : List String) (o : Option Principal) (p : Principal)
    → role_reply allowed o ≡ passed p
    → (o ≡ some p) × (mem_text p.role allowed ≡ true)
role_passed allowed none p h = absurd cc
role_passed allowed (some q) p h = elim (Bool-cases (mem_text q.role allowed)) [
  | inl e ↦
      let same : q ≡ p = cc (sym (ap (λ b. if b then passed q else status 403) e) ∙ h) in
      (ap some same, sym (ap (λ x. mem_text x.role allowed) same) ∙ e)
  | inr e ↦ absurd (cc (sym (ap (λ b. if b then passed q else status 403) e) ∙ h))
]

-- RequireRole lets only the valid principal of the request through, and only in an allowed role.
pub require_role_lem :
    (allowed : List String) (context : Option Principal) (p : Principal)
    → require_role allowed context ≡ passed p
    → (principal_from_context context ≡ some p) × (mem_text p.role allowed ≡ true)
unfolding require_role
require_role_lem allowed context p h = role_passed allowed (principal_from_context context) p h

-- Where both instance keys have space at an end, no header is accepted as an instance key's, since
-- the header is trimmed and the keys are not.
pub api_key_middleware_padded :
    (hash : String → String) (admin_key operator_key : String) (store : Option (String → Lookup))
    (header : String) (p : Principal)
    → trim_space admin_key ≢ admin_key
    → trim_space operator_key ≢ operator_key
    → api_key_middleware hash admin_key operator_key store header ≡ passed p
    → p.global ≡ false
api_key_middleware_padded hash admin_key operator_key store header p a o h =
    elim (Bool-cases p.global) [
      | inl g ↦
          absurd (
            refute
              (api_key_middleware-IsInstanceKey hash admin_key operator_key store header p h g))
      | inr g ↦ g
    ]
  where
    refute : IsInstanceKey (trim_space header) admin_key operator_key → ⊥
    refute (inl (_, e)) = a (rw (← e) (trim_space_idem header))
    refute (inr (_, e)) = o (rw (← e) (trim_space_idem header))
