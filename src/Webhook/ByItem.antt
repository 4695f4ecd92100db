-- ===== src/Webhook/ByItem.antt =====
-- What parseWebhookEvents makes of an array, item by item.
use maild.Base.{
  ℕ, ◌+◌, ◌≡◌, refl, sym, ap, ◌∙◌, Option, none, some, List, [], ◌∷◌, ◌++◌, String, arith,
}
use mathlib.Core.List.{append-nil}
use maild.Base.Int.{ℤ}
use maild.Webhook.Json.{Value, arr, Items, no_items, item}
use maild.Webhook.Values.{map_from_any}
use maild.Webhook.Parse.{
  Request, add_item, item_events, parse_items, Outcome, parsed, invalid, unless_empty,
  parse_payload, parse_events,
}
use maild.Webhook.Laws.{Gives, item_events-Gives}

abbrev pub events_in : Outcome → List Request
events_in (parsed events rejected) = events
events_in (invalid reason rejected) = []

abbrev rejected_in : Outcome → ℕ
rejected_in (parsed events rejected) = rejected
rejected_in (invalid reason rejected) = rejected

-- 1 for a payload that was refused
abbrev pub refused : Outcome → ℕ
refused (parsed events rejected) = 0
refused (invalid reason rejected) = 1

module _ (parse_int : String → Option ℤ) where
  -- the payload that has this item only
  abbrev pub alone : Value → Outcome
  alone v = parse_payload parse_int (some (arr (item v no_items)))

  -- the events of the items, each one alone, in their order
  unfoldable pub events_of_each : Items → List Request
  events_of_each no_items = []
  events_of_each (item v vs) = events_in (alone v) ++ events_of_each vs

  -- how many of the items are refused, each one alone
  unfoldable pub refused_of_each : Items → ℕ
  refused_of_each no_items = 0
  refused_of_each (item v vs) = refused (alone v) + refused_of_each vs

  add_item-alone :
      (o : Option (List Request)) (t : List Request × ℕ)
      → Gives parse_int o
      → add_item o t ≡ (
        events_in (unless_empty (add_item o ([], 0))) ++ t.0,
        refused (unless_empty (add_item o ([], 0))) + t.1,
      )
  add_item-alone none (events, rejected) g =
      ap {B = List Request × ℕ} (λ n. (events, n)) (omega arith)
  add_item-alone (some []) t g = absurd (omega (arith, g.0))
  add_item-alone (some (e ∷ es)) (events, rejected) g =
      ap {B = List Request × ℕ} (λ n. (e ∷ es ++ events, n)) (omega arith)
      ∙ ap {B = List Request × ℕ} (λ l. (e ∷ l ++ events, 0 + rejected)) (sym (append-nil es))

  parse_items-alone :
      (vs : Items) → parse_items parse_int vs ≡ (events_of_each vs, refused_of_each vs)
  unfolding parse_items events_of_each refused_of_each
  parse_items-alone no_items = refl
  parse_items-alone (item v vs) =
      ap (add_item (item_events parse_int (map_from_any v))) (parse_items-alone vs)
      ∙ add_item-alone (item_events parse_int (map_from_any v))
          (events_of_each vs, refused_of_each vs) (item_events-Gives parse_int (map_from_any v))

unless_empty-parsed :
    (t : List Request × ℕ) (events : List Request) (rejected : ℕ)
    → unless_empty t ≡ parsed events rejected
    → t ≡ (events, rejected)
unless_empty-parsed ([], n) events rejected h = absurd cc
unless_empty-parsed (e ∷ es, n) events rejected h = ap (λ o. (events_in o, rejected_in o)) h

-- The events of an accepted array are, in the array's order, those that parseWebhookEvents makes of
-- each item as an array of its own, and its rejected count is the number of the items that are
-- refused as an array of their own.
pub parse_events_by_item :
    (parse_int : String → Option ℤ) (decode : String → Option Value) (body : String) (items : Items)
    (events : List Request) (rejected : ℕ)
    → decode body ≡ some (arr items)
    → parse_events parse_int decode body ≡ parsed events rejected
    → (events ≡ events_of_each parse_int items) × (rejected ≡ refused_of_each parse_int items)
unfolding parse_events
parse_events_by_item parse_int decode body items events rejected d h =
    let whole : unless_empty (parse_items parse_int items) ≡ parsed events rejected =
      ap (parse_payload parse_int) (sym d) ∙ h in
    let both =
      sym (unless_empty-parsed (parse_items parse_int items) events rejected whole)
      ∙ parse_items-alone parse_int items in
    (ap (λ t. t.0) both, ap (λ t. t.1) both)
