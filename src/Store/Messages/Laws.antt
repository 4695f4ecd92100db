-- ===== src/Store/Messages/Laws.antt =====
-- How the statements on `messages` change the status of a row.
use mathlib.Core.Option
use maild.Base.{
  ℕ, ◌+◌, ◌≤◌, ◌<◌, ◌++◌, ==_refl, ◌≡◌, refl, ap, Bool, true, false, Option, List, [], ◌∷◌, String,
  arith, ltb, ◌==◌, if◌then◌else◌, find, update_if, count_if, find-update_if,
}
use maild.Domain.{Status, same_status, Message, MessageAttempt}
use maild.Store.Defs.{Db, ok}
use maild.Store.Messages.{
  has_id, has_id_status, put_status, transition_message_status, last_attempt_no, next_attempt_no,
  is_attempt, insert_attempt,
}

-- the status of the message with an id, if there is one
abbrev pub status_in : ℕ → List Message → Option Status
status_in id ms = Option.map (λ m. m.status) (find (has_id id) ms)

abbrev pub status_of : ℕ → Db → Option Status
status_of id db = status_in id db.messages

module _ (j : ℕ) (p : Message → Bool) (f : Message → Message)
    (kept : (m : Message) → (f m).id ≡ m.id) where
  -- an update finds the row that was there, changed if it passes the test
  pub find-update :
      (ms : List Message)
      → find (has_id j) (update_if p f ms)
        ≡ Option.map (λ m. if p m then f m else m) (find (has_id j) ms)
  find-update ms = find-update_if (has_id j) p f ms (λ m. ap (λ i. i == j) (kept m))

pub same_status_sound : (a b : Status) → same_status a b ≡ true → a ≡ b
same_status_sound a b h = ground arith

-- after an update of the rows that pass, none passes
none_left :
    (id : ℕ) (source target : Status) (now : ℕ) (ms : List Message)
    → same_status target source ≡ false
    → count_if
        (has_id_status id source)
        (update_if (has_id_status id source) (put_status target now) ms)
      ≡ 0
unfolding count_if update_if
none_left id source target now [] h = refl
none_left id source target now (m ∷ ms) h = ground (arith, none_left id source target now ms h, h)

-- Of two transitions of a message from the same status to another one, only the first can succeed.
pub transition_message_status_once :
    (id : ℕ) (source target target' : Status) (now now' : ℕ) (db : Db)
    → same_status target source ≡ false
    → (transition_message_status id source target' now'
        (transition_message_status id source target now db).1).0
      ≡ false
unfolding transition_message_status
transition_message_status_once id source target target' now now' db h =
    ap (λ n. ltb 0 n) (none_left id source target now db.messages h)

above_last :
    (id n : ℕ) (as' : List MessageAttempt)
    → last_attempt_no id as' ≤ n
    → count_if (is_attempt id (n + 1)) as' ≡ 0
unfolding last_attempt_no count_if
above_last id n [] h = refl
above_last id n (a ∷ as') h = ground (arith, above_last id n as')

-- An attempt under the number of NextAttemptNo never meets the unique key.
pub insert_attempt-next_attempt_no :
    (id : ℕ) (provider response : String) (success : Bool) (now : ℕ) (db : Db)
    → (insert_attempt id (next_attempt_no id db) provider response success now db).0 ≡ ok tt
unfolding insert_attempt next_attempt_no
insert_attempt-next_attempt_no id provider response success now db =
    rw (above_last id (last_attempt_no id db.attempts) db.attempts (omega arith)) refl

-- such an attempt is put at the end
pub insert_attempt-fresh :
    (id : ℕ) (provider response : String) (success : Bool) (now : ℕ) (db : Db)
    → insert_attempt id (next_attempt_no id db) provider response success now db ≡ (
      ok tt,
      record db {
        attempts =
            db.attempts
            ++ record {
              message_id = id;
              attempt_no = next_attempt_no id db;
              smtp_provider = provider;
              smtp_response = response;
              success = success;
              created_at = now;
            }
              ∷ [];
      },
    )
unfolding insert_attempt next_attempt_no
insert_attempt-fresh id provider response success now db =
    rw (above_last id (last_attempt_no id db.attempts) db.attempts (omega arith)) refl

-- and is then the last one
pub last_attempt_no-append :
    (as' : List MessageAttempt) (a : MessageAttempt)
    → last_attempt_no a.message_id as' < a.attempt_no
    → last_attempt_no a.message_id (as' ++ a ∷ []) ≡ a.attempt_no
unfolding last_attempt_no
last_attempt_no-append [] a h = ground (arith, ==_refl a.message_id, h)
last_attempt_no-append (b ∷ as') a h =
    let below : last_attempt_no a.message_id as' < a.attempt_no = ground (arith, h) in
    ground (arith, h, last_attempt_no-append as' a below)
