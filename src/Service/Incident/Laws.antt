-- ===== src/Service/Incident/Laws.antt =====
-- What an incident bundle shows.
use mathlib.Core.Path.{subst}
use maild.Base.{
  ℕ, ◌==◌, ◌≡◌, refl, sym, ap, ◌∙◌, Bool, true, false, ◌&&◌, not, Option, none, List, [], ◌∷◌,
  String, arith, any, any-take, keep, count_if, length, Bool-cases, inl, inr, ==_iff, str_eq,
}
use maild.Base.Int.{ℤ, pos, leb_ℤ, pos_part}
use maild.Text.{normalize}
use maild.Domain.{EventStatus, Message, MessageAttempt, WebhookEvent, is_dead_letter}
use maild.Store.Defs.{Db, Result, ok}
use maild.Store.Messages.{get_message}
use maild.Store.Attempts.{insert_by_no, sort_by_no, list_message_attempts}
use maild.Store.Webhooks.{insert_latest, sort_latest, list_webhook_events}
use maild.World.{Act, State, World}
use maild.World.Keeps.{Keeps, keeps_rules}
use maild.World.Ends.{Post, Ends-raise}
use maild.World.From.{EndsFrom, From-Ends, From-pure, From-if, From-clock, From-query, From-bind}
use maild.Service.Policy.{default_workspace}
use maild.Service.Accounts.{message_timeline}
use maild.Service.Incident.{IncidentBundle, concerns_recipient, bundle_for, incident_bundle}

module _ {A : Type 0} (p : A → Bool) where
  any-keep :
      (q : A → Bool) (xs : List A)
      → ((x : A) → q x ≡ true → p x ≡ false)
      → any p (keep q xs) ≡ false
  unfolding any keep
  any-keep q [] h = refl
  any-keep q (x ∷ xs) h = elim (Bool-cases (q x)) [
    | inl e ↦ rw (e, h x e) (any-keep q xs h)
    | inr e ↦ rw e (any-keep q xs h)
  ]

  any-keep_kept : (q : A → Bool) (xs : List A) → any p xs ≡ false → any p (keep q xs) ≡ false
  unfolding any keep
  any-keep_kept q [] h = refl
  any-keep_kept q (x ∷ xs) h = ground (arith, h, any-keep_kept q xs)

any-insert_latest :
    (p : WebhookEvent → Bool) (e : WebhookEvent) (es : List WebhookEvent)
    → p e ≡ false
    → any p es ≡ false
    → any p (insert_latest e es) ≡ false
unfolding any insert_latest
any-insert_latest p e [] h k = ground (arith, h, k)
any-insert_latest p e (x ∷ xs) h k = ground (arith, h, k, any-insert_latest p e xs h)

any-sort_latest :
    (p : WebhookEvent → Bool) (es : List WebhookEvent)
    → any p es ≡ false
    → any p (sort_latest es) ≡ false
unfolding any sort_latest
any-sort_latest p [] h = refl
any-sort_latest p (e ∷ es) h =
    any-insert_latest p e (sort_latest es) (ground (arith, h))
      (any-sort_latest p es (ground (arith, h)))

-- an event of another workspace
abbrev pub foreign : ℕ → WebhookEvent → Bool
foreign ws e = not (e.workspace_id == ws)

list_webhook_events-foreign :
    (ws : ℕ) (limit : ℤ) (status : Option EventStatus) (start end : ℕ) (db : Db)
    → any (foreign ws) (list_webhook_events ws limit status start end db) ≡ false
unfolding list_webhook_events
list_webhook_events-foreign ws limit status start end db =
    any-take _ _ _ (any-sort_latest _ _ (any-keep _ _ db.webhooks (λ e h. own _ _ _ h)))
  where
    own : (a b c : Bool) → (a && b && c) ≡ true → not a ≡ false
    own a b c h = ground (arith, h)

count_if-keep :
    {A : Type 0} (p q : A → Bool) (xs : List A)
    → count_if p (keep q xs) ≡ count_if (λ x. q x && p x) xs
unfolding count_if keep
count_if-keep p q [] = refl
count_if-keep p q (x ∷ xs) = elim (Bool-cases (q x)) [
  | inl e ↦ ground (arith, e, count_if-keep p q xs)
  | inr e ↦ ground (arith, e, count_if-keep p q xs)
]

module _ (p : MessageAttempt → Bool) where
  count_if-insert_by_no :
      (a : MessageAttempt) (xs : List MessageAttempt)
      → count_if p (insert_by_no a xs) ≡ count_if p (a ∷ xs)
  unfolding count_if insert_by_no
  count_if-insert_by_no a [] = refl
  count_if-insert_by_no a (x ∷ xs) = ground (arith, count_if-insert_by_no a xs)

  count_if-sort_by_no : (xs : List MessageAttempt) → count_if p (sort_by_no xs) ≡ count_if p xs
  unfolding count_if sort_by_no
  count_if-sort_by_no [] = refl
  count_if-sort_by_no (a ∷ xs) =
      count_if-insert_by_no a (sort_by_no xs) ∙ ground (arith, count_if-sort_by_no xs)

  count_if-list_message_attempts :
      (id : ℕ) (db : Db)
      → count_if p (list_message_attempts id db)
        ≡ count_if (λ a. a.message_id == id && p a) db.attempts
  unfolding list_message_attempts
  count_if-list_message_attempts id db =
      count_if-sort_by_no (keep (λ a. a.message_id == id) db.attempts)
      ∙ count_if-keep p (λ a. a.message_id == id) db.attempts

-- whether the addresses are the same one to the store
abbrev pub same_address : String → String → Bool
same_address a b = str_eq (normalize a) (normalize b)

-- The bundle is about the message with the id, which is one of the workspace. Its attempts are those
-- of the message in the table, as often as they stand there; its webhook events are the workspace's,
-- are for the message's recipient, and are all of these that the workspace's latest events in the
-- window have; and its numbers are those of its rows.
pub record IsOwn (ws id : ℕ) (db : Db) (b : IncidentBundle) : Type 0 where
  pub workspace : b.workspace_id ≡ ws
  pub row : get_message id db ≡ ok b.message
  pub message_here : b.message.workspace_id ≡ ws
  pub attempt_rows :
      (p : MessageAttempt → Bool)
      → count_if p b.attempts ≡ count_if (λ a. a.message_id == id && p a) db.attempts
  pub events_here : any (foreign ws) b.webhook_outcomes ≡ false
  pub events_theirs :
      any (λ e. not (same_address e.email b.message.to_email)) b.webhook_outcomes ≡ false
  pub event_rows :
      (p : WebhookEvent → Bool)
      → count_if p b.webhook_outcomes
        ≡ count_if
            (λ e. same_address e.email b.message.to_email && p e)
            (list_webhook_events ws (pos 200) none b.webhook_window_from b.webhook_window_to db)
  pub sends : b.attempted_sends ≡ length b.attempts
  pub failures : b.failed_attempts ≡ count_if (λ a. not a.success) b.attempts
  pub related : b.related_webhook_outcomes ≡ length b.webhook_outcomes
  pub dead : b.dead_letter_webhooks ≡ count_if (λ e. is_dead_letter e.status) b.webhook_outcomes

abbrev OwnFrom : ℕ → ℕ → State → Act IncidentBundle → Type 0
OwnFrom ws id st = EndsFrom st (IsOwn ws id st.db) (λ _. Unit {0})

of_ok : {A : Type 0} {a b : A} → Result.ok a ≡ ok b → a ≡ b
of_ok h = cc h

bundle_for-IsOwn :
    (ws id : ℕ) (m : Message) (attempts : List MessageAttempt) (st : State)
    → get_message id st.db ≡ ok m
    → list_message_attempts id st.db ≡ attempts
    → OwnFrom ws id st (bundle_for ws id (m, attempts))
unfolding bundle_for
bundle_for-IsOwn ws id m attempts st found listed =
    From-if _ _ _ (not (m.workspace_id == ws)) _ _ (λ _. From-Ends _ _ _ _ (Ends-raise _ _ _ tt))
      (λ h.
        From-query _ _ _ _ _
          (λ es answer. From-clock _ _ _ _ (λ now. From-pure _ _ _ _ (record {
            workspace = refl;
            row = found;
            message_here = (==_iff m.workspace_id ws).0 (ground (arith, h));
            attempt_rows = λ p.
                subst (λ l. count_if p l ≡ count_if (λ a. a.message_id == id && p a) st.db.attempts)
                  listed (count_if-list_message_attempts p id st.db);
            events_here = any-keep_kept _ (concerns_recipient m) es (
                subst (λ l. any (foreign ws) l ≡ false) (of_ok answer)
                  (list_webhook_events-foreign ws _ _ _ _ st.db));
            events_theirs = any-keep _ (concerns_recipient m) es (λ e k. ap not k);
            event_rows = λ p.
                count_if-keep p (concerns_recipient m) es
                ∙ ap (count_if (λ e. concerns_recipient m e && p e)) (sym (of_ok answer));
            sends = refl;
            failures = refl;
            related = refl;
            dead = refl;
          })))
          (λ _. tt))

-- the message and its attempts, as the tables have them
abbrev IsTimeline : ℕ → Db → Message × List MessageAttempt → Type 0
IsTimeline id db (m, attempts) =
    (get_message id db ≡ ok m) × (list_message_attempts id db ≡ attempts)

message_timeline-IsTimeline :
    (id : ℕ) (st : State) → EndsFrom st (IsTimeline id st.db) (λ _. Unit {0}) (message_timeline id)
unfolding message_timeline
message_timeline-IsTimeline id st =
    From-query _ _ _ _ _
      (λ m found.
        From-query _ _ _ _ _ (λ attempts listed. From-pure _ _ _ _ (found, of_ok listed)) (λ _. tt))
      (λ _. tt)

message_timeline-Keeps : (P : State → Type 0) (id : ℕ) → Keeps P (message_timeline id)
unfolding message_timeline
message_timeline-Keeps P id = search keeps_rules depth 9

-- An incident bundle that is returned shows the message with the id it was asked for, which is one of
-- its workspace. The attempts in it are those of the message in the table, each as often as it stands
-- there. The webhook events in it are the workspace's, are for the message's recipient, and are all
-- of these among the latest 200 events of the workspace in the bundle's window. The numbers of
-- sends, of failures, of events and of dead letters are those of the rows that it shows.
pub incident_bundle-IsOwn :
    (requested : ℕ) (id : ℤ) (w : World)
    → Post
        (IsOwn (default_workspace requested) (pos_part id) w.state.db)
        (λ _. Unit {0})
        (incident_bundle requested id w).0
unfolding incident_bundle
incident_bundle-IsOwn requested id w = own.at w refl
  where
    own : OwnFrom (default_workspace requested) (pos_part id) w.state (incident_bundle requested id)
    own =
        From-if _ _ _ (leb_ℤ id (pos 0)) _ _ (λ _. From-Ends _ _ _ _ (Ends-raise _ _ _ tt))
          (λ _.
            From-bind _ _ _ (IsTimeline (pos_part id) w.state.db) _ _
              (message_timeline-Keeps _ (pos_part id))
              (message_timeline-IsTimeline (pos_part id) w.state)
              (λ found t.
                bundle_for-IsOwn (default_workspace requested) (pos_part id) found.0 found.1 w.state
                  t.0 t.1))
