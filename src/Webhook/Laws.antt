-- ===== src/Webhook/Laws.antt =====
-- What parseWebhookEvents lets through.

use text.Mathlib.TextLemmas.{cons-ne-nil}
use mathlib.Core.Path.{subst}
use maild.Base.{
  ℕ, ◌≤◌, ◌≡◌, inl, inr, ◌∙◌, refl, ap, true, false, ◌||◌, Option, none, some, List, [], ◌∷◌, ◌++◌,
  String, arith, str_eq, eq_iff, Bool-cases, length,
}
use maild.Base.Int.{ℤ}
use maild.Text.{trim_space, trim_left, trim_right, to_lower, normalize, is_blank, mem_text}
use maild.Text.Laws.{trim_space_idem, trim_space-to_lower, to_lower_idem}
use maild.Webhook.Json.{Value, null, bool, num, str, arr, obj, Items, no_items, item, Fields}
use maild.Webhook.Values.{
  first_string, text_at, map_at, at_key, or_next, slice_from_any, map_from_any,
}
use maild.Webhook.Types.{canonical_names, event_type_of-name}
use maild.Webhook.Parse.{
  Request, ses_bounced_recipients, text_in, first_destination, destination_of, email_from_nested,
  event_type_of, event_for, recipient_event, recipient_events, if_any, email_of, object_events,
  parse_object, add_item, item_events, parse_items, Outcome, parsed, invalid, unless_empty,
  whole_object, parse_payload, parse_events,
}

-- an address as the store compares it, which is not empty
abbrev pub IsAddress : String → Type 0
IsAddress email = (is_blank email ≡ false) × (normalize email ≡ email)

lower_not_empty : (s : String) → str_eq s "" ≡ false → str_eq (to_lower s) "" ≡ false
unfolding to_lower
lower_not_empty String.[] h = cc
lower_not_empty (String.◌∷◌ c s) h = elim (Bool-cases (str_eq (to_lower (String.◌∷◌ c s)) "")) [
  | inl e ↦ absurd (cons-ne-nil _ _ ((eq_iff _ _).0 e))
  | inr e ↦ e
]

to_lower-IsAddress : (s : String) → trim_space s ≡ s → str_eq s "" ≡ false → IsAddress (to_lower s)
to_lower-IsAddress s t h =
    let trimmed : trim_space (to_lower s) ≡ to_lower s = trim_space-to_lower s ∙ ap to_lower t in
    (rw trimmed (lower_not_empty s h), rw trimmed (to_lower_idem s))

abbrev Trimmed : String → Type 0
Trimmed s = trim_space s ≡ s

or_next-Trimmed : (s t : String) → Trimmed s → Trimmed t → Trimmed (or_next s t)
or_next-Trimmed s t p q = ground (arith, p, q)

text_in-Trimmed : (keys : List String) (o : Option Fields) → Trimmed (text_in keys o)
unfolding trim_space trim_left trim_right
text_in-Trimmed keys none = refl
text_in-Trimmed keys (some fs) = trim_space_idem _

destination-Trimmed : (o : Option Fields) → Trimmed (destination_of o)
unfolding trim_space trim_left trim_right
destination-Trimmed none = refl
destination-Trimmed (some mail) = of_slice (slice_from_any (at_key "destination" mail))
  where
    of_slice : (o : Option Items) → Trimmed (first_destination o)
    of_slice none = refl
    of_slice (some vs) = trim_space_idem (first_string vs)

email_of-Trimmed : (fs : Fields) → Trimmed (email_of fs)
unfolding email_of email_from_nested
email_of-Trimmed fs = or_next-Trimmed _ _ (trim_space_idem _) (
    or_next-Trimmed _ _ (destination-Trimmed (map_at "mail" fs))
      (text_in-Trimmed _ (map_at "event-data" fs)))

-- an event that may go on: an address, and a type that is one of the five names or empty
pub record IsSound (e : Request) : Type 0 where
  pub address : IsAddress e.email
  pub named : mem_text e.event_type ("" ∷ canonical_names) ≡ true

abbrev pub All : (Request → Type 0) → List Request → Type 0
All P [] = Unit
All P (e ∷ es) = P e × All P es

All-append : (P : Request → Type 0) (xs ys : List Request) → All P xs → All P ys → All P (xs ++ ys)
All-append P [] ys h k = k
All-append P (e ∷ xs) ys h k = (h.0, All-append P xs ys h.1 k)

module _ (parse_int : String → Option ℤ) where
  event_for-IsSound :
      (fs : Fields) (reason email : String)
      → Trimmed email
      → str_eq email "" ≡ false
      → IsSound (event_for parse_int fs reason email)
  event_for-IsSound fs reason email t h = record {
    address = to_lower-IsAddress email t h;
    named = event_type_of-name parse_int fs;
  }

  recipient_event-AllSound :
      (fs : Fields) (o : Option Fields) → All IsSound (recipient_event parse_int fs o)
  recipient_event-AllSound fs none = tt
  recipient_event-AllSound fs (some r) =
      elim (Bool-cases (str_eq (text_at r ("emailAddress" ∷ "email" ∷ [])) "")) [
        | inl e ↦ rw e tt
        | inr e ↦ rw e (event_for-IsSound fs _ _ (trim_space_idem _) e, tt)
      ]

  recipient_events-AllSound :
      (fs : Fields) (vs : Items) → All IsSound (recipient_events parse_int fs vs)
  unfolding recipient_events
  recipient_events-AllSound fs no_items = tt
  recipient_events-AllSound fs (item v vs) =
      All-append IsSound _ _ (recipient_event-AllSound fs (map_from_any v))
        (recipient_events-AllSound fs vs)

  -- the events that an object gives are sound, and there is one at least
  abbrev pub Gives : Option (List Request) → Type 0
  Gives none = Unit
  Gives (some es) = (1 ≤ length es) × All IsSound es

  if_any-Gives : (es : List Request) → All IsSound es → Gives (if_any es)
  if_any-Gives [] h = tt
  if_any-Gives (e ∷ es) h = (omega arith, h)

  object_events-Gives : (fs : Fields) (o : Option Items) → Gives (object_events parse_int fs o)
  object_events-Gives fs (some vs) = if_any-Gives _ (recipient_events-AllSound fs vs)
  object_events-Gives fs none =
      elim (Bool-cases (str_eq (event_type_of parse_int fs) "" || str_eq (email_of fs) "")) [
        | inl e ↦ rw e tt
        | inr e ↦
            rw e (
              omega arith,
              (event_for-IsSound fs _ _ (email_of-Trimmed fs) (ground (arith, e)), tt),
            )
      ]

  parse_object-Gives : (fs : Fields) → Gives (parse_object parse_int fs)
  unfolding parse_object
  parse_object-Gives fs = object_events-Gives fs (ses_bounced_recipients fs)

  add_item-AllSound :
      (o : Option (List Request)) (t : List Request × ℕ)
      → Gives o
      → All IsSound t.0
      → All IsSound (add_item o t).0
  add_item-AllSound none (events, rejected) g a = a
  add_item-AllSound (some more) (events, rejected) g a = All-append IsSound more events g.1 a

  pub item_events-Gives : (o : Option Fields) → Gives (item_events parse_int o)
  item_events-Gives none = tt
  item_events-Gives (some fs) = parse_object-Gives fs

  parse_items-AllSound : (vs : Items) → All IsSound (parse_items parse_int vs).0
  unfolding parse_items
  parse_items-AllSound no_items = tt
  parse_items-AllSound (item v vs) =
      add_item-AllSound _ _ (item_events-Gives (map_from_any v)) (parse_items-AllSound vs)

-- What an accepted payload gives, and what was counted as rejected.
abbrev Accepted : (Request → Type 0) → Outcome → Type 0
Accepted P (invalid text rejected) = Unit
Accepted P (parsed es rejected) = All P es × (1 ≤ length es)

unless_empty-Accepted :
    (es : List Request) (rejected : ℕ)
    → All IsSound es
    → Accepted IsSound (unless_empty (es, rejected))
unless_empty-Accepted [] rejected h = tt
unless_empty-Accepted (e ∷ es) rejected h = (h, omega arith)

payload-Accepted :
    (parse_int : String → Option ℤ) (o : Option Value)
    → Accepted IsSound (parse_payload parse_int o)
payload-Accepted parse_int none = tt
payload-Accepted parse_int (some null) = tt
payload-Accepted parse_int (some (bool b)) = tt
payload-Accepted parse_int (some (num text)) = tt
payload-Accepted parse_int (some (str text)) = tt
payload-Accepted parse_int (some (arr vs)) =
    of_pair (parse_items parse_int vs) (parse_items-AllSound parse_int vs)
  where
    of_pair : (t : List Request × ℕ) → All IsSound t.0 → Accepted IsSound (unless_empty t)
    of_pair (es, rejected) h = unless_empty-Accepted es rejected h
payload-Accepted parse_int (some (obj fs)) =
    of_object (parse_object parse_int fs) (parse_object-Gives parse_int fs)
  where
    of_object : (o : Option (List Request)) → Gives parse_int o → Accepted IsSound (whole_object o)
    of_object none h = tt
    of_object (some es) h = unless_empty-Accepted es 0 h.1

-- A payload that the parser accepts has one event at least, and every event of it has an address
-- that is not blank, lower-cased and trimmed, and a type that is one of the five canonical names or
-- empty.
pub parse_events-IsSound :
    (parse_int : String → Option ℤ) (decode : String → Option Value) (body : String)
    (events : List Request) (rejected : ℕ)
    → parse_events parse_int decode body ≡ parsed events rejected
    → All IsSound events × (1 ≤ length events)
unfolding parse_events
parse_events-IsSound parse_int decode body events rejected h =
    subst (Accepted IsSound) h (payload-Accepted parse_int (decode body))
