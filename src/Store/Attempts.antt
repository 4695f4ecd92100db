-- ===== src/Store/Attempts.antt =====
-- internal/store/postgres/postgres.go: ListMessageAttempts.
use maild.Base.{ℕ, ◌==◌, leb, List, [], ◌∷◌, if◌then◌else◌, keep}
use maild.Domain.{MessageAttempt}
use maild.Store.Defs.{Db}

-- ORDER BY attempt_no ASC
unfoldable pub insert_by_no : MessageAttempt → List MessageAttempt → List MessageAttempt
insert_by_no a [] = a ∷ []
insert_by_no a (b ∷ bs) =
    if leb a.attempt_no b.attempt_no then a ∷ b ∷ bs else b ∷ insert_by_no a bs

unfoldable pub sort_by_no : List MessageAttempt → List MessageAttempt
unfolding insert_by_no
sort_by_no [] = []
sort_by_no (a ∷ rest) = insert_by_no a (sort_by_no rest)

-- ListMessageAttempts
unfoldable pub list_message_attempts : ℕ → Db → List MessageAttempt
unfolding sort_by_no
list_message_attempts id db = sort_by_no (keep (λ a. a.message_id == id) db.attempts)
