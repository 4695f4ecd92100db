-- ===== src/Store/Webhooks/Laws.antt =====
-- What the transactions on webhook events promise.

use maild.Base.{
  ℕ, ◌≡◌, refl, ap, ◌∙◌, Bool, ◌&&◌, ◌||◌, not, Option, none, some, List, [], ◌∷◌, ◌++◌, String,
  arith, ◌==◌, str_eq, eq_refl, two_texts, ==_refl, find, find_holds, find-append, find-update_if,
  find-update_if-none,
}
use maild.Text.{is_blank}
use maild.Domain.{replayed, WebhookEvent}
use maild.Store.Defs.{Db}
use maild.Store.Recipients.{normalize_email, is_suppressed, is_unsubscribed}
use maild.Store.Recipients.Laws.{listed-upsert_recipient}
use maild.Store.Webhooks.{
  classify_bounce, has_identity, insert_new, has_event_id, apply_event_tx, processing_row,
  finish_event, process_found, process_event_atomic, is_open, replay_found, replay_event_atomic,
}

-- the classes that suppress the recipient
abbrev pub suppresses : WebhookEvent → Bool
suppresses e =
    let c = classify_bounce e.event_type e.reason in
    str_eq c "bounce_permanent" || str_eq c "complaint"

abbrev pub unsubscribes : WebhookEvent → Bool
unsubscribes e = str_eq (classify_bounce e.event_type e.reason) "unsubscribe"

abbrev pub concerns : WebhookEvent → ℕ → String → Bool
concerns e ws email =
    not (is_blank e.email)
    && e.workspace_id == ws
    && str_eq (normalize_email e.email) (normalize_email email)

-- After applyWebhookEventTx an address is suppressed exactly if it was, or if the event is a
-- permanent bounce or a complaint that concerns it; so a temporary or an unclassified bounce, an
-- unknown type or a blank address suppresses nobody, and nobody is ever taken off the list.
pub is_suppressed-apply_event_tx :
    (e : WebhookEvent) (ws : ℕ) (email : String) (db : Db)
    → is_suppressed ws email (apply_event_tx e db).1
      ≡ ((suppresses e && concerns e ws email) || is_suppressed ws email db)
unfolding apply_event_tx is_suppressed
is_suppressed-apply_event_tx e ws email db = ground (
  arith,
  listed-upsert_recipient e.workspace_id ws (normalize_email e.email) (normalize_email email)
      e.reason db.suppressions,
  two_texts (classify_bounce e.event_type e.reason) "bounce_temporary" "bounce_permanent",
  two_texts (classify_bounce e.event_type e.reason) "bounce_temporary" "complaint",
)

-- In the same way for the list of unsubscribed addresses, which only an unsubscribe event adds to.
pub is_unsubscribed-apply_event_tx :
    (e : WebhookEvent) (ws : ℕ) (email : String) (db : Db)
    → is_unsubscribed ws email (apply_event_tx e db).1
      ≡ ((unsubscribes e && concerns e ws email) || is_unsubscribed ws email db)
unfolding apply_event_tx is_unsubscribed
is_unsubscribed-apply_event_tx e ws email db = ground (
  arith,
  listed-upsert_recipient e.workspace_id ws (normalize_email e.email) (normalize_email email)
      e.reason db.unsubscribes,
  two_texts (classify_bounce e.event_type e.reason) "unsubscribe" "bounce_permanent",
  two_texts (classify_bounce e.event_type e.reason) "unsubscribe" "bounce_temporary",
  two_texts (classify_bounce e.event_type e.reason) "unsubscribe" "complaint",
)

apply_event_tx-webhooks :
    (e : WebhookEvent) (db : Db) → (apply_event_tx e db).1.webhooks ≡ db.webhooks
unfolding apply_event_tx
apply_event_tx-webhooks e db = ground arith

-- the row that its key finds once an event has been finished
find_finished :
    (e : WebhookEvent) (db : Db) (old : List WebhookEvent)
    → db.webhooks ≡ old ++ e ∷ []
    → find (has_identity e.workspace_id e.identity_key) old ≡ none
    → find (has_identity e.workspace_id e.identity_key) (finish_event e db).1.webhooks
      ≡ some (finish_event e db).0
unfolding finish_event
find_finished e db old w h =
    find-update_if (has_identity e.workspace_id e.identity_key) (has_event_id e.id) _
      (apply_event_tx e db).1.webhooks (λ x. refl)
    ∙ rw (apply_event_tx-webhooks e db ∙ w) (
        rw (find-append (has_identity e.workspace_id e.identity_key) old e h)
          (rw (==_refl e.workspace_id, eq_refl e.identity_key) (rw (==_refl e.id))))

find_processed :
    (e : WebhookEvent) (now : ℕ) (db : Db) (o : Option WebhookEvent)
    → find (has_identity e.workspace_id e.identity_key) db.webhooks ≡ o
    → find (has_identity e.workspace_id e.identity_key) (process_found o e now db).1.webhooks
      ≡ some (process_found o e now db).0
find_processed e now db (some row) h = h
find_processed e now db none h =
    let (created, db') = insert_new (processing_row e) now db in
    find_finished created db' db.webhooks refl h

-- Processing an event whose workspace and identity key were processed before answers with the row
-- of the first time and changes no table, whatever else the second event says.
pub process_event_atomic_again :
    (e e' : WebhookEvent) (now now' : ℕ) (db : Db)
    → e'.workspace_id ≡ e.workspace_id
    → e'.identity_key ≡ e.identity_key
    → process_event_atomic e' now' (process_event_atomic e now db).1 ≡ process_event_atomic e now db
unfolding process_event_atomic
process_event_atomic_again e e' now now' db p q =
    ap (λ (o : Option WebhookEvent). process_found o e' now' (process_event_atomic e now db).1)
      ((λ i. find (has_identity (p i) (q i)) (process_event_atomic e now db).1.webhooks)
        ∙ find_processed e now db _ refl)

replay_found_once :
    (ws id : ℕ) (db : Db) (o : Option WebhookEvent) (e : WebhookEvent)
    → find (is_open ws id) db.webhooks ≡ o
    → (replay_found o db).0 ≡ some e
    → e.status ≡ replayed
    → find (is_open ws id) (replay_found o db).1.webhooks ≡ none
replay_found_once ws id db none e f h k = cc
replay_found_once ws id db (some d) e f h k =
    find-update_if-none (is_open ws id) (has_event_id d.id) _ (apply_event_tx d db).1.webhooks
      (λ x hx. ground arith) (λ x hx. ground (arith, find_holds (is_open ws id) db.webhooks f))

-- A replayed event is not open to a second replay: that one answers that nothing was claimed and
-- changes no table.
pub replay_event_atomic_once :
    (ws id : ℕ) (db : Db) (e : WebhookEvent)
    → (replay_event_atomic ws id db).0 ≡ some e
    → e.status ≡ replayed
    → replay_event_atomic ws id (replay_event_atomic ws id db).1
      ≡ (none, (replay_event_atomic ws id db).1)
unfolding replay_event_atomic
replay_event_atomic_once ws id db e h k =
    ap (λ (o : Option WebhookEvent). replay_found o (replay_event_atomic ws id db).1)
      (replay_found_once ws id db _ e refl h k)
