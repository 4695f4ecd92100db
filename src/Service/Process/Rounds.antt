-- ===== src/Service/Process/Rounds.antt =====
-- A message whose relay always refuses comes to its end.
use mathlib.Core.Option
use mathlib.Core.Path.{subst}
use maild.Base.{
  ℕ, suc, ◌+◌, ◌≤◌, ◌<◌, ◌≡◌, refl, sym, ap, ◌∙◌, true, false, none, some, List, [], ◌∷◌, ◌++◌,
  String, arith, leb, count_if, Bool-cases, inl, inr, length,
}
use maild.Domain.{queued, sending, failed, same_status, Message, MessageAttempt}
use maild.Sanitize.{smtp_error}
use maild.Store.Defs.{Db, Err, Result, ok, err}
use maild.Store.Messages.{
  has_id_status, put_status, put_retry_at, get_message, transition_message_status,
  set_message_retry_at, next_attempt_no, insert_attempt, insert_metering_event,
}
use maild.Store.Messages.Laws.{status_of, insert_attempt-fresh, last_attempt_no-append}
use maild.Store.Recipients.{is_suppressed, is_unsubscribed}
use maild.Store.Accounts.{get_account_payload}
use maild.Smtp.{Server, Credentials, provider_name, send_dialog, delivered}
use maild.World.{Mail, State, World, handle, ignore, exec, attempt, send, put_mail}
use maild.Service.Defs.{scheduling, MessageService, meter}
use maild.Service.Helpers.{backoff_duration}
use maild.Service.Process.{
  on_error, error_text, give_up_or_retry, record_failure, record_sent, deliver, process_one,
}
use maild.Service.Process.Sends.{MayBeSent, process_one_skips}
use maild.Service.Process.Claims.{calm, get_message-find, get_message-found, claimed, to_delivery}
use maild.Service.Process.GivesUp.{noted, to_end, gives_up, retries, moved_on, claimed_count}

-- the relay refuses every mail from these credentials
abbrev pub IsRefusing : Credentials → Server → Type 0
IsRefusing creds v =
    (to_email subject body : String)
    → (e : Err) × ((send_dialog v creds to_email subject body).result ≡ err e)

abbrev pub AllRefusing : Credentials → List Server → Type 0
AllRefusing creds [] = Unit
AllRefusing creds (v ∷ vs) = IsRefusing creds v × AllRefusing creds vs

-- ProcessOne of one message again and again, each time with the next relay
unfoldable pub rounds : MessageService → ℕ → List Server → State → State
rounds s id [] st = st
rounds s id (v ∷ vs) st = rounds s id vs (process_one s id (calm st (v ∷ []))).1.state

module _ (s : MessageService) (id : ℕ) (m : Message) (st : State) (v : Server)
    (may : MayBeSent id st.db m) (default_account : get_account_payload m.workspace_id st.db ≡ none)
    (no_failover : s.auto_failover_enabled ≡ false) where
  abbrev number : ℕ
  number = next_attempt_no m.id st.db

  abbrev provider : String
  provider = provider_name s.default_creds

  abbrev to_mail : String → Mail
  to_mail t = record { provider = provider; to_email = m.to_email; text = t }

  -- what the relay took over, though it refused
  abbrev after_send : State
  after_send = record (claimed m st) {
    outbox =
        put_mail
          (Option.map to_mail
            (delivered v (send_dialog v s.default_creds m.to_email m.subject m.body_text)))
          st.outbox;
  }

  -- the state with the row of the attempt
  abbrev with_attempt : String → State
  with_attempt text = record after_send {
    db = record after_send.db {
      attempts =
          st.db.attempts
          ++ record {
            message_id = m.id;
            attempt_no = number;
            smtp_provider = provider;
            smtp_response = text;
            success = false;
            created_at = st.now;
          }
            ∷ [];
    };
  }

  abbrev report : String → State
  report text =
      noted m "message_send_error" (s.json (("provider", provider) ∷ ("error", text) ∷ []))
        (with_attempt text)

  fresh :
      (text : String)
      → insert_attempt m.id number provider text false st.now after_send.db
        ≡ (ok tt, (with_attempt text).db)
  unfolding transition_message_status next_attempt_no
  fresh text = insert_attempt-fresh m.id provider text false st.now after_send.db

  to_refused :
      (e : Err)
      → (send_dialog v s.default_creds m.to_email m.subject m.body_text).result ≡ err e
      → deliver s m number s.default_creds (calm (claimed m st) (v ∷ []))
        ≡ record_failure s m number provider (smtp_error (error_text e)) (calm after_send [])
  unfolding deliver handle send
  to_refused e h =
      ap
        (λ r.
          on_error (λ e'. record_failure s m number provider (smtp_error (error_text e')))
            (λ _. record_sent m number provider) r (calm after_send []))
        h

  to_last_step :
      (e : Err)
      → (send_dialog v s.default_creds m.to_email m.subject m.body_text).result ≡ err e
      → process_one s id (calm st (v ∷ []))
        ≡ give_up_or_retry s m number provider (calm (report (smtp_error (error_text e))) [])
  unfolding meter ignore handle exec attempt next_attempt_no transition_message_status
  to_last_step e h =
      to_delivery s id m st (v ∷ []) may default_account
      ∙ to_refused e h
      ∙ to_end s m after_send [] number provider no_failover text (ap (λ r. r.0) (fresh text))
      ∙ ap
          (λ (d : Db). give_up_or_retry s m number provider (
            calm
              (noted m "message_send_error" (s.json (("provider", provider) ∷ ("error", text) ∷ []))
                (record after_send { db = d }))
              []))
          (ap (λ r. r.1) (fresh text))
    where
      text : String
      text = smtp_error (error_text e)

  -- the row is there to be moved on
  is_claimed : (text : String) → 1 ≤ count_if (has_id_status m.id sending) (report text).db.messages
  unfolding meter ignore handle exec attempt insert_metering_event transition_message_status
  is_claimed text =
      claimed_count id st.now st.db.messages m (get_message-find id st.db m may.0) may.1

  -- where no attempt is left, the message has failed
  round_fails :
      IsRefusing s.default_creds v
      → leb s.max_attempts number ≡ true
      → status_of id (process_one s id (calm st (v ∷ []))).1.state.db ≡ some failed
  unfolding meter ignore handle exec attempt insert_metering_event transition_message_status
  round_fails refusing h =
      let (e, r) = refusing m.to_email m.subject m.body_text in
      let text = smtp_error (error_text e) in
      ap (λ (z : Result (Unit {0}) × World). status_of id z.1.state.db)
        (to_last_step e r ∙ gives_up s m (report text) [] number provider h (is_claimed text))
      ∙ ap (Option.map (λ x. x.status)) (
          moved_on id st.now m (put_status failed st.now) st.db.messages (λ _. refl)
            (get_message-find id st.db m may.0) may.1)

  -- the message as it waits for its next attempt
  abbrev waiting : Message
  waiting = put_retry_at (st.now + backoff_duration number) st.now (put_status sending st.now m)

  abbrev IsWaiting : Db → Type 0
  IsWaiting db =
      MayBeSent id db waiting
      × (get_account_payload m.workspace_id db ≡ none)
      × (next_attempt_no m.id db ≡ suc number)

  abbrev put_back_state : String → State
  put_back_state text = record (report text) {
    db = (set_message_retry_at m.id (st.now + backoff_duration number) st.now (report text).db).1;
  }

  put_back-IsWaiting : (text : String) → IsWaiting (put_back_state text).db
  unfolding meter ignore handle exec attempt insert_metering_event transition_message_status
      set_message_retry_at get_message is_suppressed is_unsubscribed get_account_payload
      next_attempt_no
  put_back-IsWaiting text =
      let attempt_row : MessageAttempt = record {
        message_id = m.id;
        attempt_no = number;
        smtp_provider = provider;
        smtp_response = text;
        success = false;
        created_at = st.now;
      } in
      let row =
        moved_on id st.now m (put_retry_at (st.now + backoff_duration number) st.now) st.db.messages
          (λ _. refl) (get_message-find id st.db m may.0) may.1 in
      (
        (get_message-found id (put_back_state text).db waiting row, refl, may.2),
        default_account,
        ap (λ n. n + 1) (last_attempt_no-append st.db.attempts attempt_row (omega arith))
            ∙ omega arith,
      )

  -- where there is an attempt left, the message waits for it
  round_retries :
      IsRefusing s.default_creds v
      → s.queue ≡ scheduling
      → s.retry_at_store ≡ true
      → leb s.max_attempts number ≡ false
      → IsWaiting (process_one s id (calm st (v ∷ []))).1.state.db
  unfolding meter ignore handle exec attempt
  round_retries refusing q r h =
      let (e, x) = refusing m.to_email m.subject m.body_text in
      let text = smtp_error (error_text e) in
      subst (λ (z : Result (Unit {0}) × World). IsWaiting z.1.state.db)
        (sym
          (to_last_step e x ∙ retries s m (report text) [] number provider h q r (is_claimed text)))
        (put_back-IsWaiting text)

failed_not_queued :
    (id : ℕ) (db : Db)
    → status_of id db ≡ some failed
    → (m : Message) → get_message id db ≡ ok m
    → same_status m.status queued ≡ false
failed_not_queued id db h m g =
    let f = ap (Option.map (λ x. x.status)) (get_message-find id db m g) in
    let same : m.status ≡ failed = cc (sym f ∙ h) in rw same refl

-- rounds after the last one change nothing
rounds_after :
    (s : MessageService) (id : ℕ) (vs : List Server) (st : State)
    → status_of id st.db ≡ some failed
    → rounds s id vs st ≡ st
unfolding rounds
rounds_after s id [] st h = refl
rounds_after s id (v ∷ vs) st h =
    let same = process_one_skips s id (calm st (v ∷ [])) (failed_not_queued id st.db h) in
    ap (rounds s id vs) same ∙ rounds_after s id vs st h

-- so many rounds leave the message failed
rounds_fail :
    (s : MessageService) (id : ℕ) (m : Message) (st : State) (vs : List Server)
    → MayBeSent id st.db m
    → get_account_payload m.workspace_id st.db ≡ none
    → s.auto_failover_enabled ≡ false
    → s.queue ≡ scheduling
    → s.retry_at_store ≡ true
    → AllRefusing s.default_creds vs
    → 1 ≤ length vs
    → s.max_attempts < next_attempt_no m.id st.db + length vs
    → status_of id (rounds s id vs st).db ≡ some failed
unfolding rounds
rounds_fail s id m st [] may account off q r refusing one enough = absurd (omega (arith, one))
rounds_fail s id m st (v ∷ vs) may account off q r refusing one enough =
    elim (Bool-cases (leb s.max_attempts (next_attempt_no m.id st.db))) [
      | inl e ↦
          let over = round_fails s id m st v may account off refusing.0 e in
          ap (λ (x : State). status_of id x.db) (rounds_after s id vs _ over) ∙ over
      | inr e ↦
          let next = round_retries s id m st v may account off refusing.0 q r e in
          let left : next_attempt_no m.id st.db < s.max_attempts = ground (arith, e) in
          rounds_fail s id (waiting s id m st v may account off) _ vs next.0 next.1 off q r
            refusing.1 (omega (arith, enough, left)) (rw next.2 (omega (arith, enough)))
    ]

rounds-append :
    (s : MessageService) (id : ℕ) (vs more : List Server) (st : State)
    → rounds s id (vs ++ more) st ≡ rounds s id more (rounds s id vs st)
unfolding rounds
rounds-append s id [] more st = refl
rounds-append s id (v ∷ vs) more st = rounds-append s id vs more _

-- The attempts at a message come to an end. Conditions: no call of the database or the queue fails;
-- each call of ProcessOne comes with the next relay of `vs`, and each of these refuses every mail
-- from the default credentials; the message may be sent, and its workspace has no account of its
-- own; the automatic failover is off, and there are a scheduling queue and a store that can put a
-- message back with a time; and there are at least as many relays as attempts are left, and one at
-- least. Then after these calls the message has failed, and further calls, whatever their relays
-- answer, change nothing of the tables, the queue, the counters and the outbox.
pub rounds_end :
    (s : MessageService) (id : ℕ) (m : Message) (st : State) (vs more : List Server)
    → MayBeSent id st.db m
    → get_account_payload m.workspace_id st.db ≡ none
    → s.auto_failover_enabled ≡ false
    → s.queue ≡ scheduling
    → s.retry_at_store ≡ true
    → AllRefusing s.default_creds vs
    → 1 ≤ length vs
    → s.max_attempts < next_attempt_no m.id st.db + length vs
    → (status_of id (rounds s id vs st).db ≡ some failed)
      × (rounds s id (vs ++ more) st ≡ rounds s id vs st)
rounds_end s id m st vs more may account off q r refusing one enough =
    let over = rounds_fail s id m st vs may account off q r refusing one enough in
    (over, rounds-append s id vs more st ∙ rounds_after s id more (rounds s id vs st) over)
