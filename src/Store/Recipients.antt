-- ===== src/Store/Recipients.antt =====
-- internal/store/postgres/postgres.go: `suppressions`, `unsubscribes` and `domains`.
pub mod Laws
use maild.Base.{ℕ, Bool, ◌&&◌, List, [], ◌∷◌, String, ◌==◌, str_eq, if◌then◌else◌, any}
use maild.Text.{normalize}
use maild.Store.Defs.{Db, Recipient, VerifiedDomain}

-- normalizeEmail
unfoldable pub normalize_email : String → String
normalize_email email = normalize email

-- the key of the unique index (workspace_id, email)
abbrev pub is_recipient : ℕ → String → Recipient → Bool
is_recipient ws email r = r.workspace_id == ws && str_eq r.email email

-- SELECT EXISTS(… WHERE workspace_id = $1 AND email = $2)
unfoldable pub listed : ℕ → String → List Recipient → Bool
listed ws email rows = any (is_recipient ws email) rows

-- INSERT … ON CONFLICT (workspace_id, email) DO UPDATE SET reason = EXCLUDED.reason
unfoldable pub upsert_recipient : ℕ → String → String → List Recipient → List Recipient
upsert_recipient ws email reason [] =
    record { workspace_id = ws; email = email; reason = reason } ∷ []
upsert_recipient ws email reason (r ∷ rows) =
    if is_recipient ws email r
    then record r { reason = reason } ∷ rows
    else r ∷ upsert_recipient ws email reason rows

-- IsSuppressed
unfoldable pub is_suppressed : ℕ → String → Db → Bool
is_suppressed ws email db = listed ws (normalize_email email) db.suppressions

-- AddSuppression
unfoldable pub add_suppression : ℕ → String → String → ℕ → Db → Db
add_suppression ws email reason now db = record db {
  suppressions = upsert_recipient ws (normalize_email email) reason db.suppressions;
}

-- IsUnsubscribed
unfoldable pub is_unsubscribed : ℕ → String → Db → Bool
is_unsubscribed ws email db = listed ws (normalize_email email) db.unsubscribes

-- AddUnsubscribe
unfoldable pub add_unsubscribe : ℕ → String → String → ℕ → Db → Db
add_unsubscribe ws email reason now db = record db {
  unsubscribes = upsert_recipient ws (normalize_email email) reason db.unsubscribes;
}

unfoldable pub upsert_domain : ℕ → String → Bool → List VerifiedDomain → List VerifiedDomain
upsert_domain ws domain verified [] =
    record { workspace_id = ws; domain = domain; verified = verified } ∷ []
upsert_domain ws domain verified (d ∷ ds) =
    if d.workspace_id == ws && str_eq d.domain domain
    then record d { verified = verified } ∷ ds
    else d ∷ upsert_domain ws domain verified ds

-- UpsertDomainVerification
unfoldable pub upsert_domain_verification : ℕ → String → Bool → ℕ → Db → Db
upsert_domain_verification ws domain verified now db = record db {
  domains = upsert_domain ws domain verified db.domains;
}
