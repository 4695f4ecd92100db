-- ===== src/Service/Process/GivesUp.antt =====
-- ProcessOne against a relay that refuses: it tries again, and after the last attempt it gives up.
use mathlib.Core.Option
use maild.Base.{
  ℕ, ◌+◌, ◌≤◌, ◌≡◌, refl, ap, ◌∙◌, true, false, Option, none, some, List, [], ◌∷◌, String, arith,
  ==_refl, ◌==◌, ltb, leb, find, count_if, update_if, Bool-cases, inl, inr,
}
use maild.Domain.{queued, sending, failed, same_status, Message}
use maild.Store.Defs.{Result, ok}
use maild.Store.Messages.{
  has_id, has_id_status, put_status, transition_message_status, set_message_retry_at,
  insert_attempt, insert_metering_event,
}
use maild.Store.Messages.Laws.{find-update}
use maild.Smtp.{Server}
use maild.World.{
  State, World, Act, pure, ignore, handle, ◌>>◌, or_raise, ◌>>=◌, attempt, exec, redis, clock,
}
use maild.Service.Defs.{scheduling, MessageService, meter}
use maild.Queue
use maild.Service.Helpers.{backoff_duration}
use maild.Service.Failover.{try_auto_failover}
use maild.Service.Process.{
  transition, provider_metadata, on_error, put_back, schedule_retry_state, give_up_or_retry,
  mark_unknown, record_failure, report_switch,
}
use maild.Service.Process.Claims.{calm, choose_false}

-- the state after one more row of the log
abbrev pub noted : Message → String → String → State → State
noted m kind metadata st = (meter m.workspace_id m.id kind metadata (calm st [])).1.state

module _ (s : MessageService) (m : Message) (st : State) (vs : List Server) (number : ℕ)
    (provider : String) (no_failover : s.auto_failover_enabled ≡ false) where
  abbrev attempted : String → State
  attempted text = record st {
    db = (insert_attempt m.id number provider text false st.now st.db).1;
  }

  abbrev reported : String → State
  reported text =
      noted m "message_send_error" (s.json (("provider", provider) ∷ ("error", text) ∷ []))
        (attempted text)

  not_switched : (w : World) → try_auto_failover s m.workspace_id provider w ≡ pure none w
  unfolding try_auto_failover
  not_switched w = choose_false s.auto_failover_enabled _ _ w no_failover

  -- what follows the attempt's row
  abbrev after_attempt : String → Unit {0} → Act (Unit {0})
  after_attempt text _ = do
    meter m.workspace_id m.id "message_send_error"
        (s.json (("provider", provider) ∷ ("error", text) ∷ []))
    handle (try_auto_failover s m.workspace_id provider) (report_switch s m provider)
    give_up_or_retry s m number provider

  pub to_end :
      (text : String)
      → (insert_attempt m.id number provider text false st.now st.db).0 ≡ ok tt
      → record_failure s m number provider text (calm st vs)
        ≡ give_up_or_retry s m number provider (calm (reported text) vs)
  unfolding record_failure meter ignore handle exec attempt pure ◌>>=◌
  to_end text h =
      ap (λ r. on_error (mark_unknown m.id) (after_attempt text) r (calm (attempted text) vs)) h
      ∙ ap
          (λ (z : Result (Option String) × World).
            let y = report_switch s m provider z.0 z.1 in
            or_raise (λ _. give_up_or_retry s m number provider) y.0 y.1)
          (not_switched (calm (reported text) vs))

-- a row that is sending can be moved on
pub claimed_count :
    (id now : ℕ) (ms : List Message) (m : Message)
    → find (has_id id) ms ≡ some m
    → same_status m.status queued ≡ true
    → 1
      ≤ count_if
          (has_id_status m.id sending)
          (update_if (has_id_status m.id queued) (put_status sending now) ms)
unfolding find count_if update_if
claimed_count id now [] m h q = absurd cc
claimed_count id now (x ∷ xs) m h q = elim (Bool-cases (has_id id x)) [
  | inl e ↦
      let same : x ≡ m = cc (rw e at h) in
      let own : (x.id == m.id) ≡ true = ap (λ y. y.id == m.id) same ∙ ==_refl m.id in
      let waits : same_status x.status queued ≡ true =
        ap (λ y. same_status y.status queued) same ∙ q in
      rw (own, waits) (rw own (omega arith))
  | inr e ↦ let later = claimed_count id now xs m (rw e at h) q in ground (arith, later)
]

-- the end where no attempt is left
pub gives_up :
    (s : MessageService) (m : Message) (st : State) (vs : List Server) (number : ℕ)
    (provider : String)
    → leb s.max_attempts number ≡ true
    → 1 ≤ count_if (has_id_status m.id sending) st.db.messages
    → give_up_or_retry s m number provider (calm st vs) ≡ (
      ok tt,
      calm
          (record (noted m "message_failed" (provider_metadata provider) st) {
            db =
                (transition_message_status m.id sending failed st.now
                  (noted m "message_failed" (provider_metadata provider) st).db).1;
          })
          vs,
    )
unfolding give_up_or_retry meter ignore handle exec attempt pure ◌>>=◌ transition
    transition_message_status insert_metering_event
gives_up s m st vs number provider h k =
    let p : ltb 0 (count_if (has_id_status m.id sending) st.db.messages) ≡ true =
      ground (arith, k) in
    rw (h, p) refl

-- the end where there is an attempt left
pub retries :
    (s : MessageService) (m : Message) (st : State) (vs : List Server) (number : ℕ)
    (provider : String)
    → leb s.max_attempts number ≡ false
    → s.queue ≡ scheduling
    → s.retry_at_store ≡ true
    → 1 ≤ count_if (has_id_status m.id sending) st.db.messages
    → give_up_or_retry s m number provider (calm st vs) ≡ (
      ok tt,
      calm
          (record st {
            db = (set_message_retry_at m.id (st.now + backoff_duration number) st.now st.db).1;
            queue = Queue.schedule_retry m.id (st.now + backoff_duration number) st.queue;
          })
          vs,
    )
unfolding give_up_or_retry handle exec attempt pure ◌>>=◌ clock redis schedule_retry_state put_back
    set_message_retry_at
retries s m st vs number provider h q r k =
    let p : ltb 0 (count_if (has_id_status m.id sending) st.db.messages) ≡ true =
      ground (arith, k) in
    rw (h, r, q, p) refl

-- a found row after the claim and one more update of the row that is sending
pub moved_on :
    (id now : ℕ) (m : Message) (g : Message → Message) (ms : List Message)
    → ((x : Message) → (g x).id ≡ x.id)
    → find (has_id id) ms ≡ some m
    → same_status m.status queued ≡ true
    → find (has_id id) (
        update_if
          (has_id_status m.id sending)
          g
          (update_if (has_id_status m.id queued) (put_status sending now) ms))
      ≡ some (g (put_status sending now m))
moved_on id now m g ms kept h q =
    find-update id (has_id_status m.id sending) g kept _
    ∙ ap (Option.map _) (
        find-update id (has_id_status m.id queued) (put_status sending now) (λ _. refl) ms
        ∙ ap (Option.map _) h)
    ∙ ap some (rw (==_refl m.id, q) (rw (==_refl m.id) refl))
