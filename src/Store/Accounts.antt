-- ===== src/Store/Accounts.antt =====
-- internal/store/postgres/postgres.go: `smtp_accounts`.
pub mod Laws
pub mod Upsert
use maild.Base.{
  ℕ, Bool, true, false, ◌&&◌, ◌||◌, not, Option, none, some, List, [], ◌∷◌, ◌++◌, String, map, leb,
  ◌==◌, str_eq, if◌then◌else◌, any, count_if, keep, update_if,
}
use maild.Text.{trim_space}
use maild.Domain.{SmtpAccountSummary}
use maild.Store.Defs.{Db, Account, Result, ok, err, account_not_found}

abbrev pub of_workspace : ℕ → Account → Bool
of_workspace ws a = a.workspace_id == ws

abbrev pub is_account : ℕ → String → Account → Bool
is_account ws name a = a.workspace_id == ws && str_eq a.name name

abbrev pub put_payload : String → ℕ → Account → Account
put_payload payload now a = record a { payload = payload; updated_at = now }

-- UpsertSMTPAccountEncrypted, SELECT EXISTS
unfoldable pub has_account : ℕ → Db → Bool
has_account ws db = any (of_workspace ws) db.accounts

-- UpsertSMTPAccountEncrypted, INSERT with ON CONFLICT DO UPDATE
unfoldable pub put_account : ℕ → String → String → Bool → ℕ → Db → Db
put_account ws name payload activate now db =
    let a : Account = record {
      workspace_id = ws;
      name = name;
      payload = payload;
      active = activate;
      updated_at = now;
    } in
    if any (is_account ws name) db.accounts
    then record db {
      accounts = update_if (is_account ws name) (put_payload payload now) db.accounts;
    }
    else record db { accounts = db.accounts ++ a ∷ [] }

-- the two statements with nothing between them
unfoldable pub upsert_account : ℕ → String → String → ℕ → Db → Db
unfolding has_account put_account
upsert_account ws name payload now db = put_account ws name payload (not (has_account ws db)) now db

-- ORDER BY is_active DESC, updated_at DESC
abbrev pub before : Account → Account → Bool
before a b =
    (a.active && not b.active)
    || ((not a.active || b.active) && (a.active || not b.active) && leb b.updated_at a.updated_at)

unfoldable pub insert_account : Account → List Account → List Account
insert_account a [] = a ∷ []
insert_account a (b ∷ bs) = if before a b then a ∷ b ∷ bs else b ∷ insert_account a bs

unfoldable pub sort_accounts : List Account → List Account
unfolding insert_account
sort_accounts [] = []
sort_accounts (a ∷ as') = insert_account a (sort_accounts as')

unfoldable pub accounts_of : ℕ → Db → List Account
unfolding sort_accounts
accounts_of ws db = sort_accounts (keep (of_workspace ws) db.accounts)

abbrev pub first_payload : List Account → Option String
first_payload [] = none
first_payload (a ∷ _) = some a.payload

-- GetSMTPAccountEncrypted; `none` is sql.ErrNoRows
unfoldable pub get_account_payload : ℕ → Db → Option String
unfolding accounts_of
get_account_payload ws db = first_payload (accounts_of ws db)

abbrev pub deactivate : Account → Account
deactivate a = record a { active = false }

abbrev pub activate : ℕ → Account → Account
activate now a = record a { active = true; updated_at = now }

-- SetActiveSMTPAccount: one transaction, which is rolled back if no row has the name
unfoldable pub set_active_account : ℕ → String → ℕ → Db → Result (Unit {0}) × Db
set_active_account ws name now db =
    let cleared = update_if (of_workspace ws) deactivate db.accounts in
    let chosen = update_if (is_account ws (trim_space name)) (activate now) cleared in
    if count_if (is_account ws (trim_space name)) cleared == 0
    then (err account_not_found, db)
    else (ok tt, record db { accounts = chosen })

abbrev pub summary : Account → SmtpAccountSummary
summary a = record {
  workspace_id = a.workspace_id;
  name = a.name;
  active = a.active;
  updated_at = a.updated_at;
}

-- ListSMTPAccounts
unfoldable pub list_accounts : ℕ → Db → List SmtpAccountSummary
unfolding accounts_of
list_accounts ws db = map summary (accounts_of ws db)
