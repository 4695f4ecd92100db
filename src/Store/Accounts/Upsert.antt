-- ===== src/Store/Accounts/Upsert.antt =====
-- UpsertSMTPAccountEncrypted keeps the rule on active accounts.
use maild.Base.{
  ℕ, ◌≤◌, ◌≡◌, refl, sym, ◌∙◌, inl, inr, true, false, ◌||◌, not, List, [], ◌∷◌, ◌++◌, String, arith,
  ◌==◌, eq_iff, any, count_if, update_if, Bool-cases, count_if-append, count_if-eq-zero, any-append,
}
use maild.Store.Defs.{Db, Account}
use maild.Store.Accounts.{of_workspace, is_account, put_payload, upsert_account}
use maild.Store.Accounts.Laws.{is_active_of, key_count, IsConsistent, active-none}

-- an update of the payloads leaves the keys and the active marks
module _ (ws : ℕ) (n payload : String) (now : ℕ) where
  abbrev replaced : List Account → List Account
  replaced rows = update_if (is_account ws n) (put_payload payload now) rows

  active-replaced :
      (ws' : ℕ) (rows : List Account)
      → count_if (is_active_of ws') (replaced rows) ≡ count_if (is_active_of ws') rows
  unfolding count_if update_if
  active-replaced ws' [] = refl
  active-replaced ws' (a ∷ rows) = ground (arith, active-replaced ws' rows)

  key-replaced :
      (ws' : ℕ) (m : String) (rows : List Account)
      → count_if (is_account ws' m) (replaced rows) ≡ count_if (is_account ws' m) rows
  unfolding count_if update_if
  key-replaced ws' m [] = refl
  key-replaced ws' m (a ∷ rows) = ground (arith, key-replaced ws' m rows)

  any-replaced :
      (ws' : ℕ) (rows : List Account)
      → any (of_workspace ws') (replaced rows) ≡ any (of_workspace ws') rows
  unfolding any update_if
  any-replaced ws' [] = refl
  any-replaced ws' (a ∷ rows) = ground (arith, any-replaced ws' rows)

-- One more row of a key that no row has, active exactly if the workspace had no row.
module _ (db : Db) (c : IsConsistent db) (a : Account)
    (fresh : any (is_account a.workspace_id a.name) db.accounts ≡ false)
    (first : a.active ≡ not (any (of_workspace a.workspace_id) db.accounts)) where
  key_of_new : (ws : ℕ) (m : String) → is_account ws m a ≡ true → key_count ws m db ≡ 0
  key_of_new ws m h =
      let e₁ : ws ≡ a.workspace_id = ground arith in
      let e₂ : m ≡ a.name = ground (arith, eq_iff a.name m) in
      rw (e₁, e₂) (count_if-eq-zero (is_account a.workspace_id a.name) db.accounts fresh)

  key-new : (ws : ℕ) (m : String) → count_if (is_account ws m) (db.accounts ++ a ∷ []) ≤ 1
  unfolding count_if
  key-new ws m =
      rw (count_if-append (is_account ws m) db.accounts (a ∷ []))
        (ground (arith, c.one_key ws m, key_of_new ws m))

  active_of_new : (ws : ℕ) → is_active_of ws a ≡ true → count_if (is_active_of ws) db.accounts ≡ 0
  active_of_new ws h =
      let e : ws ≡ a.workspace_id = ground arith in
      rw e (active-none a.workspace_id db.accounts (ground arith))

  active-new : (ws : ℕ) → count_if (is_active_of ws) (db.accounts ++ a ∷ []) ≤ 1
  unfolding count_if
  active-new ws =
      rw (count_if-append (is_active_of ws) db.accounts (a ∷ []))
        (ground (arith, c.one_active ws, active_of_new ws))

  inactive_of_new :
      (ws : ℕ)
      → (a.workspace_id == ws) ≡ true
      → is_active_of ws a ≡ false
      → any (of_workspace ws) db.accounts ≡ true
  inactive_of_new ws h k = let e : ws ≡ a.workspace_id = ground arith in rw e (ground arith)

  some-new :
      (ws : ℕ)
      → any (of_workspace ws) (db.accounts ++ a ∷ []) ≡ true
      → count_if (is_active_of ws) (db.accounts ++ a ∷ []) ≡ 1
  unfolding count_if any
  some-new ws h =
      let h' : (any (of_workspace ws) db.accounts || any (of_workspace ws) (a ∷ [])) ≡ true =
        sym (any-append (of_workspace ws) db.accounts (a ∷ [])) ∙ h in
      rw (count_if-append (is_active_of ws) db.accounts (a ∷ []))
        (ground (arith, c.some_active ws, active_of_new ws, inactive_of_new ws))

  new_row-IsConsistent : IsConsistent (record db { accounts = db.accounts ++ a ∷ [] })
  new_row-IsConsistent = record {
    one_key = key-new;
    one_active = active-new;
    some_active = some-new;
  }

-- UpsertSMTPAccountEncrypted keeps the tables consistent.
pub upsert_account-IsConsistent :
    (ws : ℕ) (name payload : String) (now : ℕ) (db : Db)
    → IsConsistent db
    → IsConsistent (upsert_account ws name payload now db)
unfolding upsert_account
upsert_account-IsConsistent ws name payload now db c =
    elim (Bool-cases (any (is_account ws name) db.accounts)) [
      | inl e ↦ rw e (record {
        one_key =
            λ ws' m. rw (key-replaced ws name payload now ws' m db.accounts) (c.one_key ws' m);
        one_active =
            λ ws'. rw (active-replaced ws name payload now ws' db.accounts) (c.one_active ws');
        some_active = λ ws' h.
            active-replaced ws name payload now ws' db.accounts
            ∙ c.some_active ws' (sym (any-replaced ws name payload now ws' db.accounts) ∙ h);
      })
      | inr e ↦ rw e (new_row-IsConsistent db c _ e refl)
    ]
