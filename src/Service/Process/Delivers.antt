-- ===== src/Service/Process/Delivers.antt =====
-- ProcessOne on a quiet day: no call fails, and the relay takes the mail over.
use mathlib.Core.Option
use mathlib.Core.Path.{subst}
use maild.Base.{
  ℕ, ◌≡◌, refl, sym, ap, ◌∙◌, Bool, true, false, none, some, List, [], ◌∷◌, ◌++◌, String, arith,
  ==_refl, if◌then◌else◌, find, update_if,
}
use maild.Domain.{queued, sending, sent, Message}
use maild.Sanitize.{smtp_error}
use maild.Store.Defs.{Db, Result, ok}
use maild.Store.Messages.{
  has_id, has_id_status, put_status, transition_message_status, set_message_status, next_attempt_no,
  insert_attempt, insert_metering_event,
}
use maild.Store.Messages.Laws.{status_in, status_of, find-update, insert_attempt-next_attempt_no}
use maild.Store.Accounts.{get_account_payload}
use maild.Smtp.{Server, provider_name, send_dialog, delivered}
use maild.World.{
  Mail, State, World, Act, pure, ignore, handle, ◌>>◌, ◌>>=◌, attempt, exec, send, next_server,
  later_servers, put_mail,
}
use maild.Service.Defs.{MessageService, meter}
use maild.Service.Process.{
  set_status, provider_metadata, on_error, error_text, mark_unknown, record_failure, deliver,
  record_sent, process_one,
}
use maild.Service.Process.Sends.{MayBeSent}
use maild.Service.Process.Claims.{calm, get_message-find, claimed, to_delivery}

abbrev marked_sent : Message → ℕ → Message → Message
marked_sent m n x = if has_id m.id x then put_status sent n x else x

marked_sent-status :
    (m : Message) (n1 n2 : ℕ) (b : Bool)
    → (marked_sent m n2 (if b then put_status sending n1 m else m)).status ≡ sent
marked_sent-status m n1 n2 true =
    ap
      (λ c.
        (if c
          then put_status sent n2 (put_status sending n1 m)
          else put_status sending n1 m).status)
      (==_refl m.id)
marked_sent-status m n1 n2 false =
    ap (λ c. (if c then put_status sent n2 m else m).status) (==_refl m.id)

-- the row that was found, after the two updates of its status
sent_status :
    (id : ℕ) (m : Message) (n1 n2 : ℕ) (ms : List Message)
    → find (has_id id) ms ≡ some m
    → status_in id (
        update_if
          (has_id m.id)
          (put_status sent n2)
          (update_if (has_id_status m.id queued) (put_status sending n1) ms))
      ≡ some sent
sent_status id m n1 n2 ms h =
    ap (Option.map (λ x. x.status)) (
      find-update id (has_id m.id) (put_status sent n2) (λ _. refl) _
      ∙ ap (Option.map _) (
          find-update id (has_id_status m.id queued) (put_status sending n1) (λ _. refl) ms
          ∙ ap (Option.map _) h))
    ∙ ap some (marked_sent-status m n1 n2 (has_id_status m.id queued m))

module _ (s : MessageService) (id : ℕ) (m : Message) (st : State) (vs : List Server)
    (may : MayBeSent id st.db m) (default_account : get_account_payload m.workspace_id st.db ≡ none)
    (text : String)
    (accepted : (send_dialog
        (next_server vs)
        s.default_creds
        m.to_email
        m.subject
        m.body_text).result
      ≡ ok tt)
    (taken : delivered
        (next_server vs)
        (send_dialog (next_server vs) s.default_creds m.to_email m.subject m.body_text)
      ≡ some text) where
  abbrev mail : Mail
  mail = record { provider = provider_name s.default_creds; to_email = m.to_email; text = text }

  abbrev to_mail : String → Mail
  to_mail t = record { provider = provider_name s.default_creds; to_email = m.to_email; text = t }

  -- the state after the sending
  abbrev handed_over : State
  handed_over = record (claimed m st) { outbox = st.outbox ++ mail ∷ [] }

  to_sent :
      deliver s m (next_attempt_no m.id (claimed m st).db) s.default_creds (calm (claimed m st) vs)
      ≡ record_sent m
          (next_attempt_no m.id (claimed m st).db)
          (provider_name s.default_creds)
          (calm handed_over (later_servers vs))
  unfolding deliver handle send
  to_sent = λ i.
      on_error
        (λ e.
          record_failure s m (next_attempt_no m.id (claimed m st).db)
            (provider_name s.default_creds) (smtp_error (error_text e)))
        (λ _.
          record_sent m (next_attempt_no m.id (claimed m st).db) (provider_name s.default_creds))
        (accepted i)
        (calm (record (claimed m st) { outbox = put_mail (Option.map to_mail (taken i)) st.outbox })
          (later_servers vs))

  insert_attempt-messages :
      (number : ℕ) (provider response : String) (success : Bool) (now : ℕ) (db : Db)
      → (insert_attempt m.id number provider response success now db).1.messages ≡ db.messages
  unfolding insert_attempt
  insert_attempt-messages number provider response success now db = ground arith

  -- the call returns without an error, the mail is in the outbox, and the message is marked as sent
  abbrev Delivered : Result (Unit {0}) × World → Type 0
  Delivered r =
      (r.0 ≡ ok tt)
      × (r.1.state.outbox ≡ st.outbox ++ mail ∷ [])
      × (status_of id r.1.state.db ≡ some sent)

  -- what follows the attempt's row
  abbrev rest : Unit {0} → Act (Unit {0})
  rest _ = do
    meter m.workspace_id m.id "message_sent" (provider_metadata (provider_name s.default_creds))
    handle (set_status m.id sent) (on_error (mark_unknown m.id) (λ _. pure tt))

  rest-Delivered :
      (db : Db) (vs' : List Server)
      → db.messages ≡ (claimed m st).db.messages
      → Delivered (rest tt (calm (record handed_over { db = db }) vs'))
  unfolding meter ignore handle exec attempt pure ◌>>=◌ set_status set_message_status
      insert_metering_event transition_message_status
  rest-Delivered db vs' h = (
    refl,
    refl,
    subst (λ ms. status_in id (update_if (has_id m.id) (put_status sent st.now) ms) ≡ some sent)
        (sym h) (sent_status id m st.now st.now st.db.messages (get_message-find id st.db m may.0)),
  )

  record_sent-Delivered : Delivered (
      record_sent m
        (next_attempt_no m.id (claimed m st).db)
        (provider_name s.default_creds)
        (calm handed_over (later_servers vs)))
  unfolding record_sent handle exec attempt
  record_sent-Delivered =
      subst
        (λ r. Delivered (
          on_error (mark_unknown m.id) rest r
            (calm (record handed_over { db = after_attempt }) (later_servers vs))))
        (sym (
          insert_attempt-next_attempt_no m.id (provider_name s.default_creds)
            "accepted by smtp server" true st.now (claimed m st).db))
        (rest-Delivered after_attempt (later_servers vs)
          (insert_attempt-messages _ _ _ _ _ (claimed m st).db))
    where
      after_attempt : Db
      after_attempt =
          (insert_attempt m.id (next_attempt_no m.id (claimed m st).db)
            (provider_name s.default_creds) "accepted by smtp server" true st.now
            (claimed m st).db).1

-- Where no call fails, ProcessOne of a queued message whose recipient may be written to, in a workspace
-- without an account of its own, returns without an error after exactly one mail went to the outbox
-- and the message was marked as sent, provided that the relay takes the mail over without an error.
pub process_one_delivers :
    (s : MessageService) (id : ℕ) (m : Message) (st : State) (vs : List Server) (text : String)
    → MayBeSent id st.db m
    → get_account_payload m.workspace_id st.db ≡ none
    → (send_dialog (next_server vs) s.default_creds m.to_email m.subject m.body_text).result ≡ ok tt
    → delivered
        (next_server vs)
        (send_dialog (next_server vs) s.default_creds m.to_email m.subject m.body_text)
      ≡ some text
    → ((process_one s id (calm st vs)).0 ≡ ok tt)
      × ((process_one s id (calm st vs)).1.state.outbox
          ≡ st.outbox
            ++ record {
              provider = provider_name s.default_creds;
              to_email = m.to_email;
              text = text;
            }
              ∷ [])
      × (status_of id (process_one s id (calm st vs)).1.state.db ≡ some sent)
process_one_delivers s id m st vs text may account accepted taken =
    subst (Delivered s id m st vs may account text accepted taken)
      (sym (
        to_delivery s id m st vs may account
        ∙ to_sent s id m st vs may account text accepted taken))
      (record_sent-Delivered s id m st vs may account text accepted taken)
