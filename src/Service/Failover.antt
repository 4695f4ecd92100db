-- ===== src/Service/Failover.antt =====
-- internal/service/message_service.go, tryAutoFailover.
use maild.Base.{ℕ, ◌+◌, ◌-◌, Option, none, some, List, [], ◌∷◌, String, ltb, length, if◌then◌else◌}
use maild.Domain.{SmtpAccountSummary}
use maild.Store.Defs.{ok}
use maild.Store.Messages.{count_failed_attempts_since}
use maild.Store.Accounts.{list_accounts, set_active_account}
use maild.World.{Act, pure, ◌>>=◌, ◌>>◌, query, exec, clock}
use maild.Service.Defs.{MessageService}

-- the loop over the accounts: the last active one, and the first that is not active
abbrev pub or_first : Option SmtpAccountSummary → SmtpAccountSummary → Option SmtpAccountSummary
or_first none a = some a
or_first (some b) a = some b

unfoldable pub pick_accounts :
    Option SmtpAccountSummary
    → Option SmtpAccountSummary
    → List SmtpAccountSummary
    → Option SmtpAccountSummary × Option SmtpAccountSummary
pick_accounts active standby [] = (active, standby)
pick_accounts active standby (a ∷ as') =
    pick_accounts (if a.active then some a else active)
      (if a.active then standby else or_first standby a) as'

abbrev pub switch_to :
    MessageService → ℕ → Option SmtpAccountSummary × Option SmtpAccountSummary → Act (Option String)
switch_to s ws (none, standby) = pure none
switch_to s ws (some active, none) = pure none
switch_to s ws (some active, some standby) = do
  now ← clock
  if ltb now (active.updated_at + s.auto_failover_cooldown)
      then pure none
      else do exec (set_active_account ws standby.name); pure (some standby.name)

-- tryAutoFailover: the provider that was switched to, if one was
unfoldable pub try_auto_failover : MessageService → ℕ → String → Act (Option String)
unfolding pick_accounts
try_auto_failover s ws provider =
    if s.auto_failover_enabled
    then (do
      now ← clock
      failures ←
          query
            (λ db. ok (count_failed_attempts_since ws provider (now - s.auto_failover_window) db))
      if ltb failures s.auto_failover_failures then pure none else do
        accounts ← query (λ db. ok (list_accounts ws db))
        if ltb (length accounts) 2
            then pure none
            else switch_to s ws (pick_accounts none none accounts))
    else pure none
