-- ===== src/Store/Recipients/Laws.antt =====
-- What the lists of suppressed and unsubscribed recipients promise.
use maild.Base.{ℕ, ◌≡◌, ◌&&◌, ◌||◌, List, [], ◌∷◌, String, arith, ◌==◌, str_eq, eq_iff, any}
use maild.Store.Defs.{Db, Recipient}
use maild.Store.Recipients.{
  normalize_email, listed, upsert_recipient, is_suppressed, add_suppression, is_unsubscribed,
  add_unsubscribe,
}

-- The index after an upsert: the new key is listed, and every other key as before.
pub listed-upsert_recipient :
    (ws ws' : ℕ) (email email' reason : String) (rows : List Recipient)
    → listed ws' email' (upsert_recipient ws email reason rows)
      ≡ ((ws == ws' && str_eq email email') || listed ws' email' rows)
unfolding listed upsert_recipient any
listed-upsert_recipient ws ws' email email' reason [] = ground arith
listed-upsert_recipient ws ws' email email' reason (r ∷ rows) = ground (
  arith,
  eq_iff r.email email,
  eq_iff r.email email',
  eq_iff email email',
  listed-upsert_recipient ws ws' email email' reason rows,
)

-- IsSuppressed after AddSuppression: the address itself, in any capitals and with any space
-- around it, is suppressed in that workspace, and every other answer stands.
pub is_suppressed-add_suppression :
    (ws ws' : ℕ) (email email' reason : String) (now : ℕ) (db : Db)
    → is_suppressed ws' email' (add_suppression ws email reason now db) ≡ (
        (ws == ws' && str_eq (normalize_email email) (normalize_email email'))
        || is_suppressed ws' email' db)
unfolding is_suppressed add_suppression
is_suppressed-add_suppression ws ws' email email' reason now db =
    listed-upsert_recipient ws ws' (normalize_email email) (normalize_email email') reason
      db.suppressions

-- IsUnsubscribed after AddUnsubscribe: the address itself, in any capitals and with any space around
-- it, is unsubscribed in that workspace, and every other answer stands.
pub is_unsubscribed-add_unsubscribe :
    (ws ws' : ℕ) (email email' reason : String) (now : ℕ) (db : Db)
    → is_unsubscribed ws' email' (add_unsubscribe ws email reason now db) ≡ (
        (ws == ws' && str_eq (normalize_email email) (normalize_email email'))
        || is_unsubscribed ws' email' db)
unfolding is_unsubscribed add_unsubscribe
is_unsubscribed-add_unsubscribe ws ws' email email' reason now db =
    listed-upsert_recipient ws ws' (normalize_email email) (normalize_email email') reason
      db.unsubscribes
