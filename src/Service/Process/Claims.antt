-- ===== src/Service/Process/Claims.antt =====
-- ProcessOne up to the call of Send, where no call fails: the message is looked up, checked and claimed.

use mathlib.Core.Path.{subst}
use maild.Base.{
  ℕ, ◌≤◌, ◌≡◌, refl, sym, ap, ◌∙◌, Bool, true, false, ◌||◌, Option, none, some, List, [], ◌∷◌,
  arith, ==_refl, if◌then◌else◌, find, count_if, Bool-cases, inl, inr,
}
use maild.Domain.{queued, sending, sent, suppressed, same_status, Message}
use maild.Store.Defs.{Db, message_not_found, Result, ok, err}
use maild.Store.Messages.{
  has_id, has_id_status, get_message, transition_message_status, next_attempt_no,
}
use maild.Store.Accounts.{get_account_payload}
use maild.Smtp.{Server}
use maild.World.{State, World, Act, pure, handle, or_raise, ◌>>=◌, attempt, query, exec}
use maild.Service.Defs.{MessageService, unsealed, resolve_credentials}
use maild.Service.Process.{
  transition, on_error, release, deliver, process_claimed, claim_and_process, process_queued,
  process_one,
}
use maild.Service.Process.Sends.{MayBeSent}

-- a world in which no call fails
abbrev pub calm : State → List Server → World
calm st vs = record { state = st; faults = []; servers = vs }

module _ {A B : Type 0} (k : A → Act B) (st : State) (vs : List Server) where
  pub query-calm :
      (f : Db → Result A) {a : A} → f st.db ≡ ok a → (query f >>= k) (calm st vs) ≡ k a (calm st vs)
  unfolding ◌>>=◌ handle query attempt
  query-calm f h = ap (λ r. or_raise k r (calm st vs)) h

  pub exec-calm :
      (f : ℕ → Db → Result A × Db) {a : A}
      → (f st.now st.db).0 ≡ ok a
      → (exec f >>= k) (calm st vs) ≡ k a (calm (record st { db = (f st.now st.db).1 }) vs)
  unfolding ◌>>=◌ handle exec attempt
  exec-calm f h = ap (λ r. or_raise k r (calm (record st { db = (f st.now st.db).1 }) vs)) h

pub choose_false :
    {A : Type 0} (b : Bool) (m n : Act A) (w : World) → b ≡ false → (if b then m else n) w ≡ n w
choose_false b m n w h = ap (λ c. (if c then m else n) w) h

pub choose_true :
    {A : Type 0} (b : Bool) (m n : Act A) (w : World) → b ≡ true → (if b then m else n) w ≡ m w
choose_true b m n w h = ap (λ c. (if c then m else n) w) h

-- a queued row that was found is among the rows that the claim affects
found_queued :
    (id : ℕ) (ms : List Message) (m : Message)
    → find (has_id id) ms ≡ some m
    → same_status m.status queued ≡ true
    → 1 ≤ count_if (has_id_status m.id queued) ms
unfolding find count_if
found_queued id [] m h q = absurd cc
found_queued id (x ∷ xs) m h q = elim (Bool-cases (has_id id x)) [
  | inl e ↦ let p : x ≡ m = cc (rw e at h) in rw (counted p) (omega arith)
  | inr e ↦ ground (arith, found_queued id xs m (rw e at h) q)
]
  where
    counted : x ≡ m → has_id_status m.id queued x ≡ true
    counted p =
        subst (λ y. has_id_status m.id queued y ≡ true) (sym p) (ground (arith, ==_refl m.id, q))

found_row :
    (o : Option Message) (m : Message)
    → ◌≡◌ {A = Result Message} (elim o [ some x ↦ ok x | none ↦ err message_not_found ]) (ok m)
    → o ≡ some m
found_row none m h = absurd cc
found_row (some x) m h = cc

pub get_message-find :
    (id : ℕ) (db : Db) (m : Message)
    → get_message id db ≡ ok m
    → find (has_id id) db.messages ≡ some m
unfolding get_message
get_message-find id db m h = found_row (find (has_id id) db.messages) m h

pub get_message-found :
    (id : ℕ) (db : Db) (m : Message)
    → find (has_id id) db.messages ≡ some m
    → get_message id db ≡ ok m
unfolding get_message
get_message-found id db m h = rw (h, get_message) refl

-- the state after the claim
abbrev pub claimed : Message → State → State
claimed m st = record st { db = (transition_message_status m.id queued sending st.now st.db).1 }

module _ (s : MessageService) (id : ℕ) (m : Message) (st : State) (vs : List Server)
    (may : MayBeSent id st.db m)
    (default_account : get_account_payload m.workspace_id st.db ≡ none) where
  to_queued : process_one s id (calm st vs) ≡ process_queued s m (calm st vs)
  unfolding process_one
  to_queued =
      query-calm _ st vs (get_message id) may.0
      ∙ choose_false (same_status m.status suppressed || same_status m.status sent) _ _ _
          (ground (arith, may.1))
      ∙ choose_true (same_status m.status queued) _ _ _ may.1

  to_claim : process_queued s m (calm st vs) ≡ claim_and_process s m (calm st vs)
  unfolding process_queued
  to_claim = query-calm _ st vs _ refl ∙ query-calm _ st vs _ refl ∙ choose_false _ _ _ _ may.2

  to_claimed : claim_and_process s m (calm st vs) ≡ process_claimed s m (calm (claimed m st) vs)
  unfolding claim_and_process transition transition_message_status
  to_claimed = exec-calm _ st vs _ {a = true} (
      ap ok (
        ground (arith, found_queued id st.db.messages m (get_message-find id st.db m may.0) may.1)))

  default_claimed : get_account_payload m.workspace_id (claimed m st).db ≡ none
  unfolding get_account_payload transition_message_status
  default_claimed = default_account

  to_deliver :
      process_claimed s m (calm (claimed m st) vs)
      ≡ deliver s m
          (next_attempt_no m.id (claimed m st).db)
          s.default_creds
          (calm (claimed m st) vs)
  unfolding process_claimed resolve_credentials handle query attempt ◌>>=◌ pure
  to_deliver =
      ap
        (λ o.
          handle (unsealed s o)
            (on_error (release s m.id)
              (λ creds. deliver s m (next_attempt_no m.id (claimed m st).db) creds))
            (calm (claimed m st) vs))
        default_claimed

  -- up to the relay
  pub to_delivery :
      process_one s id (calm st vs)
      ≡ deliver s m
          (next_attempt_no m.id (claimed m st).db)
          s.default_creds
          (calm (claimed m st) vs)
  to_delivery = to_queued ∙ to_claim ∙ to_claimed ∙ to_deliver
