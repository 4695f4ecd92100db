-- ===== src/Service/Queueing/Laws.antt =====
-- What QueueMessage writes.
use maild.Base.{ℕ, ◌≡◌, ◌⊎◌, inl, inr, refl, ap, Bool, ◌||◌, List, [], ◌∷◌, ◌++◌, String, str_eq}
use maild.Domain.{Message}
use maild.Store.Defs.{Result, ok, err}
use maild.Store.Messages.{create_message, insert_metering_event}
use maild.Store.Recipients.{is_suppressed, is_unsubscribed}
use maild.World.{State, World, Act, or_raise, ◌>>=◌, exec}
use maild.World.Keeps.{Keeps, keeps_rules, Keeps-exec, Keeps-redis, Keeps-ignore, Keeps-raise}
use maild.World.Ensures.{Ensures, Ensures-kept, Ensures-if, Ensures-then}
use maild.World.Grants.{Ensures-grant, Grants-query, Ensures-exec}
use maild.Service.Defs.{
  QueueKind, absent, plain, scheduling, MessageService, enqueue_on, enqueue, meter,
}
use maild.Service.Helpers.{extract_domain}
use maild.Service.Queueing.{store_and_enqueue, first_status, draft_of, queue_message}
use maild.Service.Queueing.Admission.{IsAdmitted, Same, admit_granted}

-- no row, or one row for the recipient whose domain passed the checks, in the status that the
-- suppression and unsubscribe lists call for
abbrev pub AtMostOneRow : MessageService → ℕ → String → State → List Message → Type 0
AtMostOneRow s ws to_email before after =
    (after ≡ before.db.messages)
    ⊎ ((m : Message) × IsAdmitted s ws (extract_domain to_email) before
        × (m.to_email ≡ to_email)
        × (m.status
            ≡ first_status
                (is_suppressed ws to_email before.db || is_unsubscribed ws to_email before.db))
        × (after ≡ before.db.messages ++ m ∷ []))

module _ (s : MessageService) (ws : ℕ) (from_email to_email subject body : String)
    (before : State) where
  abbrev Written : State → Type 0
  Written st = AtMostOneRow s ws to_email before st.db.messages

  unwritten : (st : State) → Same s ws before st → Written st
  unwritten st h = inl (ap (λ d. d.messages) h.0)

  enqueue_on-Keeps : (kind : QueueKind) (id : ℕ) → Keeps Written (enqueue_on kind id)
  enqueue_on-Keeps absent id = search keeps_rules
  enqueue_on-Keeps plain id = Keeps-redis _ (λ st h. h)
  enqueue_on-Keeps scheduling id = Keeps-redis _ (λ st h. h)

  enqueue-Keeps : (id : ℕ) → Keeps Written (enqueue s id)
  unfolding enqueue
  enqueue-Keeps id = enqueue_on-Keeps s.queue id

  meter-Keeps :
      (id : ℕ) (event_type metadata : String) → Keeps Written (meter ws id event_type metadata)
  unfolding meter insert_metering_event
  meter-Keeps id event_type metadata = Keeps-ignore _ (Keeps-exec _ (λ st h. h))

  create-Ensures :
      (stopped : Bool)
      → IsAdmitted s ws (extract_domain to_email) before
      → stopped ≡ (is_suppressed ws to_email before.db || is_unsubscribed ws to_email before.db)
      → Ensures (Same s ws before) Written (
          exec (λ now db.
            let (m, db') =
              create_message (draft_of ws from_email to_email subject body stopped) now db in
            (ok m, db')))
  unfolding create_message
  create-Ensures stopped admitted e = Ensures-exec _ _ _ unwritten (λ st h. inr (
    (create_message (draft_of ws from_email to_email subject body stopped) st.now st.db).0,
    admitted,
    refl,
    ap first_status e,
    ap
        (λ d.
          d.messages
          ++ (create_message (draft_of ws from_email to_email subject body stopped) st.now st.db).0
            ∷ [])
        h.0,
  ))

  -- from a first step that leads to `Written`, whatever follows and keeps it
  then_kept :
      {A B : Type 0} (m : Act A) (f : A → Act B)
      → Ensures (Same s ws before) Written m
      → ((a : A) → Keeps Written (f a))
      → Ensures (Same s ws before) Written (m >>= f)
  unfolding ◌>>=◌
  then_kept {A} {B} m f km kf = Ensures-then _ _ _ _ km on_result
    where
      on_result : (r : Result A) → Keeps Written (or_raise f r)
      on_result (ok a) = kf a
      on_result (err e) = Keeps-raise e

  store-Ensures :
      (stopped : Bool)
      → IsAdmitted s ws (extract_domain to_email) before
      → stopped ≡ (is_suppressed ws to_email before.db || is_unsubscribed ws to_email before.db)
      → Ensures
          (Same s ws before)
          Written
          (store_and_enqueue s stopped (draft_of ws from_email to_email subject body stopped))
  unfolding store_and_enqueue
  store-Ensures stopped admitted e =
      then_kept _ _ (create-Ensures stopped admitted e)
        (λ m. search (keeps_rules, enqueue-Keeps, meter-Keeps) depth 9)

  queue_message-Ensures :
      Ensures (Same s ws before) Written (queue_message s ws from_email to_email subject body)
  unfolding queue_message
  queue_message-Ensures =
      Ensures-if _ _ (str_eq (extract_domain to_email) "") _ _
        (λ _. Ensures-kept _ _ _ unwritten (Keeps-raise _))
        (λ _. Ensures-grant _ _ _ _ _ unwritten (admit_granted s ws before _) (λ _ admitted.
          Ensures-grant _ _ _ _ _ unwritten (Grants-query _ before.db _ (λ st h. h.0)) (λ on_list p.
            Ensures-grant _ _ _ _ _ unwritten (Grants-query _ before.db _ (λ st h. h.0))
              (λ unsubscribed q. store-Ensures _ admitted cc))))

-- One call of QueueMessage, whatever database or queue error it meets, writes no message, or exactly
-- one, to the recipient. Then the recipient's domain is blocked neither by the workspace's policy
-- nor by the instance, the policy's limits on the past hour's messages are not reached, and the
-- message is suppressed exactly if the recipient is on the suppression or the unsubscribe list.
pub queue_message_admits :
    (s : MessageService) (ws : ℕ) (from_email to_email subject body : String) (w : World)
    → AtMostOneRow s ws to_email w.state
        (queue_message s ws from_email to_email subject body w).1.state.db.messages
queue_message_admits s ws from_email to_email subject body w =
    (queue_message-Ensures s ws from_email to_email subject body w.state).at w (refl, refl)
