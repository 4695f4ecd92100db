-- ===== src/Service/Accounts/Laws.antt =====
-- An account that was saved is the one that the next mail is sent with.
use maild.Base.{
  ℕ, ◌≡◌, refl, ap, ◌∙◌, true, false, some, List, [], ◌∷◌, ◌++◌, String, arith, ==_refl, any, keep,
}
use maild.Domain.{SmtpAccount}
use maild.Store.Defs.{Db, Account, Result, ok}
use maild.Store.Accounts.{
  of_workspace, is_account, upsert_account, accounts_of, sort_accounts, insert_account,
  first_payload, get_account_payload,
}
use maild.Smtp.{normalize_tls_mode, Server}
use maild.World.{State, World, Act, pure, handle, ◌>>=◌, exec, attempt}
use maild.Service.Defs.{MessageService, lift, account_creds, resolve_credentials}
use maild.Service.Process.Claims.{calm, query-calm}
use maild.Service.Accounts.{checked_account, store_sealed, upsert_smtp_account}

-- no row of the workspace
keep-append_first :
    (ws : ℕ) (rows : List Account) (a : Account)
    → any (of_workspace ws) rows ≡ false
    → of_workspace ws a ≡ true
    → keep (of_workspace ws) (rows ++ a ∷ []) ≡ a ∷ []
unfolding keep any
keep-append_first ws [] a n h = rw h refl
keep-append_first ws (r ∷ rows) a n h = ground (arith, n, h, keep-append_first ws rows a)

unnamed :
    (ws : ℕ) (name : String) (rows : List Account)
    → any (of_workspace ws) rows ≡ false
    → any (is_account ws name) rows ≡ false
unfolding any
unnamed ws name [] h = refl
unnamed ws name (r ∷ rows) h = ground (arith, h, unnamed ws name rows)

get_account_payload-upsert_account :
    (ws : ℕ) (name payload : String) (now : ℕ) (db : Db)
    → any (of_workspace ws) db.accounts ≡ false
    → get_account_payload ws (upsert_account ws name payload now db) ≡ some payload
unfolding get_account_payload accounts_of upsert_account sort_accounts insert_account
get_account_payload-upsert_account ws name payload now db h = rw (unnamed ws name db.accounts h) (
    ap (λ rows. first_payload (sort_accounts rows))
      (keep-append_first ws db.accounts _ h (==_refl ws)))

lift-ok :
    {A B : Type 0} (k : A → Act B) (r : Result A) (a : A) (w : World)
    → r ≡ ok a
    → (lift r >>= k) w ≡ k a w
unfolding ◌>>=◌ handle pure
lift-ok k r a w h = ap (λ x. (lift x >>= k) w) h

-- The first account that UpsertSMTPAccount saves for a workspace, where no call fails and the sealer
-- opens what it sealed, is the one that resolveCredentials then answers with for the workspace, its
-- TLS mode completed.
pub resolve_credentials-upsert_smtp_account :
    (s : MessageService) (account checked : SmtpAccount) (payload : String) (st : State)
    (vs : List Server)
    → any (of_workspace account.workspace_id) st.db.accounts ≡ false
    → checked_account account (normalize_tls_mode account.tls_mode) ≡ ok checked
    → s.sealer.seal checked ≡ ok payload
    → s.sealer.unseal payload ≡ ok checked
    → (resolve_credentials s account.workspace_id (upsert_smtp_account s account (calm st vs)).1).0
      ≡ ok (account_creds checked)
unfolding upsert_smtp_account store_sealed upsert_account resolve_credentials exec attempt pure
resolve_credentials-upsert_smtp_account s account checked payload st vs h c sealed opened =
    ap (λ z. (resolve_credentials s account.workspace_id z.1).0) saved
    ∙ ap (λ z. z.0)
        (query-calm _ _ _ _ (
            ap ok (
              get_account_payload-upsert_account account.workspace_id account.name payload st.now
                st.db h))
          ∙ lift-ok _ _ checked _ opened)
  where
    saved : upsert_smtp_account s account (calm st vs) ≡ (
      ok tt,
      calm
          (record st { db = upsert_account account.workspace_id account.name payload st.now st.db })
          vs,
    )
    saved = lift-ok _ _ checked _ c ∙ lift-ok _ _ payload _ sealed ∙ query-calm _ _ _ _ refl
