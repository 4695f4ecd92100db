-- ===== src/Webhook/Uses.antt =====
-- What the parsed events mean for the tables: their identities, and who is suppressed.

use Prim.Native.String.{◌++◌ as ◌+s◌}
use text.Mathlib.TextLemmas.{append-eq-nil_iff, append_cancel_left, cons-ne-nil}
use mathlib.Core.Option
use maild.Base.{
  map, ℕ, ◌≡◌, ◌⊎◌, inl, inr, ◌∙◌, refl, sym, ap, Bool, true, false, ◌&&◌, ◌||◌, Option, some, [],
  ◌∷◌, String, arith, str_eq, eq_iff, Bool-cases,
}
use maild.Base.Int.{ℤ}
use maild.Text.{mem_text, to_lower}
use maild.Domain.{WebhookEvent}
use maild.Store.Defs.{Db}
use maild.Store.Recipients.{is_suppressed}
use maild.Store.Webhooks.{apply_event_tx, classify_bounce}
use maild.Store.Webhooks.Laws.{is_suppressed-apply_event_tx}
use maild.Webhook.Json.{Fields, no_items, item, obj}
use maild.Webhook.Values.{map_from_any, text_at, map_at, or_next}
use maild.Webhook.Classify.{normalize_event_type, bounce_evidence}
use maild.Webhook.Types.{
  canonical_names, event_type_of-name, event_type_of-complaint, event_type_of-permanent,
}
use maild.Webhook.Parse.{
  Request, ses_bounced_recipients, text_in, tagged, provider_identity, event_type_of, raw_type_of,
  recipient_events, parse_object,
}

-- a text that tells two addresses apart, where it is not empty
abbrev TellsApart : (String → String) → Type 0
TellsApart f = (a b : String) → f a ≡ f b → (f a ≡ "") ⊎ (a ≡ b)

not_empty : (p r : String) → str_eq (p +s ":" +s r) "" ≡ false
not_empty p r = elim (Bool-cases (str_eq (p +s ":" +s r) "")) [
  | inl e ↦
      let whole = append-eq-nil_iff.0 ((eq_iff (p +s ":" +s r) "").0 e) in
      let colon = (append-eq-nil_iff.0 whole.1).0 in absurd (cons-ne-nil _ _ colon)
  | inr e ↦ e
]

-- with an identifier: the whole text, whatever stands after it
some_id :
    (p id t : String) (e rest : String)
    → str_eq id "" ≡ false
    → or_next (tagged p id t e) rest ≡ p +s ":" +s id +s ":" +s t +s ":" +s e
some_id p id t e rest h = rw (h, not_empty p (id +s ":" +s t +s ":" +s e)) refl

same_prefix :
    (p id t a b : String)
    → p +s ":" +s id +s ":" +s t +s ":" +s a ≡ p +s ":" +s id +s ":" +s t +s ":" +s b
    → a ≡ b
same_prefix p id t a b h = append_cancel_left ":" _ _ (
    append_cancel_left t _ _ (
      append_cancel_left ":" _ _
        (append_cancel_left id _ _ (append_cancel_left ":" _ _ (append_cancel_left p _ _ h)))))

or_next-TellsApart :
    (p id t : String) (g : String → String)
    → TellsApart g
    → TellsApart (λ e. or_next (tagged p id t e) (g e))
or_next-TellsApart p id t g h a b k = elim (Bool-cases (str_eq id "")) [
  | inl e ↦
      let left : or_next (tagged p id t a) (g a) ≡ g a = rw e refl in
      let right : or_next (tagged p id t b) (g b) ≡ g b = rw e refl in
      rw left (h a b (sym left ∙ k ∙ right))
  | inr e ↦
      inr (same_prefix p id t a b (sym (some_id p id t a (g a) e) ∙ k ∙ some_id p id t b (g b) e))
]

last-TellsApart : (p id t : String) → TellsApart (tagged p id t)
last-TellsApart p id t a b k = elim (Bool-cases (str_eq id "")) [
  | inl e ↦ inl (rw e refl)
  | inr e ↦ inr (same_prefix p id t a b (rw e at k))
]

-- Two events of one object, with one type and different addresses, never have the same identity,
-- unless the object has no identifier at all; so no recipient's event is taken for another's.
pub provider_identity-TellsApart :
    (fs : Fields) (event_type a b : String)
    → provider_identity fs event_type a ≡ provider_identity fs event_type b
    → (provider_identity fs event_type a ≡ "") ⊎ (a ≡ b)
unfolding provider_identity
provider_identity-TellsApart fs event_type =
    or_next-TellsApart "sendgrid" (text_at fs ("sg_event_id" ∷ [])) event_type _ (
      or_next-TellsApart "mailgun" (text_in ("id" ∷ []) (map_at "event-data" fs)) event_type _ (
        or_next-TellsApart "ses" (text_in ("messageId" ∷ []) (map_at "mail" fs)) event_type _ (
          last-TellsApart (or_next (to_lower (text_at fs ("RecordType" ∷ []))) "provider")
            (text_at fs ("ID" ∷ "id" ∷ "event_id" ∷ "eventId" ∷ [])) event_type)))

-- what an object must say to have an address suppressed: a complaint, a permanent bounce, or an
-- open bounce with evidence that it is permanent
abbrev pub IsGrave : (String → Option ℤ) → Fields → Type 0
IsGrave parse_int fs =
    (normalize_event_type (raw_type_of fs) ≡ "complaint")
    ⊎ ((normalize_event_type (raw_type_of fs) ≡ "bounce_permanent")
        ⊎ ((normalize_event_type (raw_type_of fs) ≡ "bounce_unclassified")
            × (bounce_evidence parse_int fs (raw_type_of fs) ≡ some "bounce_permanent")))

classify_named :
    (t reason : String) → mem_text t ("" ∷ canonical_names) ≡ true → classify_bounce t reason ≡ t
unfolding classify_bounce mem_text
classify_named t reason h = elim (Bool-cases (str_eq t "bounce")) [
  | inl e ↦
      absurd (cc (sym (ap (λ s. mem_text s ("" ∷ canonical_names)) ((eq_iff t "bounce").0 e)) ∙ h))
  | inr e ↦ rw e refl
]

grave :
    (parse_int : String → Option ℤ) (fs : Fields) (t reason : String)
    → t ≡ event_type_of parse_int fs
    → (str_eq (classify_bounce t reason) "bounce_permanent"
        || str_eq (classify_bounce t reason) "complaint")
      ≡ true
    → IsGrave parse_int fs
grave parse_int fs t reason e h =
    let same : classify_bounce t reason ≡ t =
      classify_named t reason (rw e (event_type_of-name parse_int fs)) in
    by_test (rw same at h)
  where
    by_test : (str_eq t "bounce_permanent" || str_eq t "complaint") ≡ true → IsGrave parse_int fs
    by_test k = elim (Bool-cases (str_eq t "complaint")) [
      | inl c ↦ inl (event_type_of-complaint parse_int fs (sym e ∙ (eq_iff t "complaint").0 c))
      | inr c ↦
          let p : str_eq t "bounce_permanent" ≡ true = ground (arith, c, k) in
          inr (event_type_of-permanent parse_int fs (sym e ∙ (eq_iff t "bounce_permanent").0 p))
    ]

-- An event of a provider's object suppresses an address that was not suppressed only if the object
-- names a complaint or a permanent bounce, or names an open bounce and has evidence that it is
-- permanent; so a bounce that is named temporary suppresses nobody.
pub is_suppressed-IsGrave :
    (parse_int : String → Option ℤ) (fs : Fields) (e : WebhookEvent) (ws : ℕ) (email : String)
    (db : Db)
    → e.event_type ≡ event_type_of parse_int fs
    → is_suppressed ws email db ≡ false
    → is_suppressed ws email (apply_event_tx e db).1 ≡ true
    → IsGrave parse_int fs
is_suppressed-IsGrave parse_int fs e ws email db t before after =
    grave parse_int fs e.event_type e.reason t
      (both _ _ _ before (sym (is_suppressed-apply_event_tx e ws email db) ∙ after))
  where
    both : (a b c : Bool) → c ≡ false → ((a && b) || c) ≡ true → a ≡ true
    both a b c p q = ground (arith, p, q)

-- An object that lists one recipient is accepted without any type that the parser knows, where an
-- object without such a list is refused: its event has the empty type.
pub parse_object_untyped :
    (parse_int : String → Option ℤ) (fs recipient : Fields)
    → event_type_of parse_int fs ≡ ""
    → ses_bounced_recipients fs ≡ some (item (obj recipient) no_items)
    → str_eq (text_at recipient ("emailAddress" ∷ "email" ∷ [])) "" ≡ false
    → Option.map (map (λ (e : Request). e.event_type)) (parse_object parse_int fs) ≡ some ("" ∷ [])
unfolding parse_object recipient_events map_from_any
parse_object_untyped parse_int fs recipient t s h = rw (s, h) (rw t refl)
