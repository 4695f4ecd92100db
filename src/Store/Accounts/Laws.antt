-- ===== src/Store/Accounts/Laws.antt =====
-- At most one account of a workspace is active, and a workspace with accounts has an active one.
use maild.Base.{
  ℕ, ◌≤◌, ◌≡◌, ◌≢◌, refl, sym, ◌∙◌, ◌⊎◌, inl, inr, Bool, true, false, ◌&&◌, List, [], ◌∷◌, String,
  arith, ◌==◌, any, count_if, update_if, Bool-cases, ℕ_discrete,
}
use maild.Text.{trim_space}
use maild.Store.Defs.{Db, Account, ok, err, account_not_found}
use maild.Store.Accounts.{of_workspace, is_account, deactivate, activate, set_active_account}

abbrev pub is_active_of : ℕ → Account → Bool
is_active_of ws a = a.active && a.workspace_id == ws

-- the active account of that name
abbrev pub is_active_key : ℕ → String → Account → Bool
is_active_key ws n a = a.active && is_account ws n a

-- how many active accounts the workspace has
abbrev pub active_count : ℕ → Db → ℕ
active_count ws db = count_if (is_active_of ws) db.accounts

-- how many accounts have the key
abbrev pub key_count : ℕ → String → Db → ℕ
key_count ws name db = count_if (is_account ws name) db.accounts

-- The two unique indexes of the migrations, and that a workspace with accounts has an active one.
pub record IsConsistent (db : Db) : Type 0 where
  pub one_key : (ws : ℕ) (name : String) → key_count ws name db ≤ 1
  pub one_active : (ws : ℕ) → active_count ws db ≤ 1
  pub some_active : (ws : ℕ) → any (of_workspace ws) db.accounts ≡ true → active_count ws db ≡ 1

-- the rows after the two updates of SetActiveSMTPAccount
abbrev switched : ℕ → String → ℕ → List Account → List Account
switched ws n now rows =
    update_if (is_account ws n) (activate now) (update_if (of_workspace ws) deactivate rows)

module _ (ws : ℕ) (n : String) (now : ℕ) where
  active-switched :
      (rows : List Account)
      → count_if (is_active_of ws) (switched ws n now rows) ≡ count_if (is_account ws n) rows
  unfolding count_if update_if
  active-switched [] = refl
  active-switched (a ∷ rows) = ground (arith, active-switched rows)

  active-switched_ne :
      (ws' : ℕ) (rows : List Account)
      → ws' ≢ ws
      → count_if (is_active_of ws') (switched ws n now rows) ≡ count_if (is_active_of ws') rows
  unfolding count_if update_if
  active-switched_ne ws' [] h = refl
  active-switched_ne ws' (a ∷ rows) h = ground (arith, active-switched_ne ws' rows)

  key-switched :
      (ws' : ℕ) (m : String) (rows : List Account)
      → count_if (is_account ws' m) (switched ws n now rows) ≡ count_if (is_account ws' m) rows
  unfolding count_if update_if
  key-switched ws' m [] = refl
  key-switched ws' m (a ∷ rows) = ground (arith, key-switched ws' m rows)

  key-cleared :
      (rows : List Account)
      → count_if (is_account ws n) (update_if (of_workspace ws) deactivate rows)
        ≡ count_if (is_account ws n) rows
  unfolding count_if update_if
  key-cleared [] = refl
  key-cleared (a ∷ rows) = ground (arith, key-cleared rows)

  active_key-switched :
      (rows : List Account)
      → count_if (is_active_key ws n) (switched ws n now rows)
        ≡ count_if (is_active_of ws) (switched ws n now rows)
  unfolding count_if update_if
  active_key-switched [] = refl
  active_key-switched (a ∷ rows) = ground (arith, active_key-switched rows)

  any-switched :
      (ws' : ℕ) (rows : List Account)
      → any (of_workspace ws') (switched ws n now rows) ≡ any (of_workspace ws') rows
  unfolding any update_if
  any-switched ws' [] = refl
  any-switched ws' (a ∷ rows) = ground (arith, any-switched ws' rows)

-- without an account there is no active one
pub active-none :
    (ws : ℕ) (rows : List Account)
    → any (of_workspace ws) rows ≡ false
    → count_if (is_active_of ws) rows ≡ 0
unfolding any count_if
active-none ws [] h = refl
active-none ws (a ∷ rows) h = ground (arith, active-none ws rows)

-- the active rows of any workspace after the switch
active-switched_cases :
    (ws : ℕ) (n : String) (now ws' : ℕ) (rows : List Account)
    → count_if (is_account ws n) rows ≡ 1
    → (count_if (is_active_of ws') (switched ws n now rows) ≡ 1)
      ⊎ (count_if (is_active_of ws') (switched ws n now rows) ≡ count_if (is_active_of ws') rows)
active-switched_cases ws n now ws' rows h = elim (ℕ_discrete ws' ws) [
  | yes e ↦ inl (rw e (active-switched ws n now rows ∙ h))
  | no d ↦ inr (active-switched_ne ws n now ws' rows d)
]

switched-IsConsistent :
    (ws : ℕ) (n : String) (now : ℕ) (db : Db)
    → IsConsistent db
    → key_count ws n db ≡ 1
    → IsConsistent (record db { accounts = switched ws n now db.accounts })
switched-IsConsistent ws n now db c h = record {
  one_key = λ ws' m. rw (key-switched ws n now ws' m db.accounts) (c.one_key ws' m);
  one_active =
      λ ws'. omega (arith, active-switched_cases ws n now ws' db.accounts h, c.one_active ws');
  some_active = λ ws' e.
      let k : active_count ws' db ≡ 1 =
        c.some_active ws' (sym (any-switched ws n now ws' db.accounts) ∙ e) in
      omega (arith, active-switched_cases ws n now ws' db.accounts h, k);
}

-- the test of SetActiveSMTPAccount passes over the one row that the key names
one_match :
    (ws : ℕ) (n : String) (db : Db)
    → IsConsistent db
    → (count_if (is_account ws n) (update_if (of_workspace ws) deactivate db.accounts) == 0) ≡ false
    → key_count ws n db ≡ 1
one_match ws n db c e = ground (arith, key-cleared ws n 0 db.accounts, c.one_key ws n)

-- SetActiveSMTPAccount keeps the tables consistent: at most one active account in each workspace,
-- and one where there are accounts.
pub set_active_account-IsConsistent :
    (ws : ℕ) (name : String) (now : ℕ) (db : Db)
    → IsConsistent db
    → IsConsistent (set_active_account ws name now db).1
unfolding set_active_account
set_active_account-IsConsistent ws name now db c =
    elim (Bool-cases (
      count_if (is_account ws (trim_space name))
        (update_if (of_workspace ws) deactivate db.accounts)
      == 0)) [
        | inl e ↦ rw e c
        | inr e ↦ rw e (
            switched-IsConsistent ws (trim_space name) now db c
              (one_match ws (trim_space name) db c e))
      ]

-- After a successful SetActiveSMTPAccount every active account of the workspace is one with the
-- trimmed name; a failed one says that there is no such account, and changes nothing.
pub set_active_account_lem :
    (ws : ℕ) (name : String) (now : ℕ) (db : Db)
    → (((set_active_account ws name now db).0 ≡ ok tt)
        × (count_if
              (is_active_key ws (trim_space name))
              (set_active_account ws name now db).1.accounts
            ≡ active_count ws (set_active_account ws name now db).1))
      ⊎ (set_active_account ws name now db ≡ (err account_not_found, db))
unfolding set_active_account
set_active_account_lem ws name now db =
    elim (Bool-cases (
      count_if (is_account ws (trim_space name))
        (update_if (of_workspace ws) deactivate db.accounts)
      == 0)) [
        | inl e ↦ inr (rw e)
        | inr e ↦ inl (rw e, rw e (active_key-switched ws (trim_space name) now db.accounts))
      ]
