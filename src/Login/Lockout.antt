-- ===== src/Login/Lockout.antt =====
-- internal/auth/ratelimit.go: when failed sign-ins lock an address out, and for how long.
use maild.Base.{ℕ, suc, ◌<◌, ◌⊎◌, Option, none, some, List, [], ◌∷◌, ◌≤◌, ◌≡◌, true, String}
use maild.Base.Int.{pos}
use maild.Login.{
  LoginRateLimiter, LoginState, Counter, counted, live_counter, lock_expiry, record_failure,
}
use maild.Login.Laws.{all_fine}

-- failures of the address at these instants, in their order
unfoldable pub fail_at : LoginRateLimiter → String → List ℕ → LoginState → LoginState
fail_at l ip [] st = st
fail_at l ip (t ∷ ts) st = fail_at l ip ts (record_failure l all_fine ip t st).1

-- the last one of the instants
abbrev pub last_of : ℕ → List ℕ → ℕ
last_of t [] = t
last_of t (t' ∷ ts) = last_of t' ts

abbrev pub AllBefore : ℕ → List ℕ → Type 0
AllBefore end [] = Unit
AllBefore end (t ∷ ts) = (t < end) × AllBefore end ts

module _ (l : LoginRateLimiter) (ip : String) (n end : ℕ) (connected : l.connected ≡ true)
    (window : 1 ≤ l.failure_window) (most : l.max_failures ≡ pos (suc n)) where
  abbrev next_count : ℕ → LoginState → Counter
  next_count t st = counted (live_counter t (st.fails ip))

  abbrev counter : ℕ → Counter
  counter k = record { count = k; expires = some end }

  -- so many failures that count until `end`, and the block as it was
  abbrev Counting : Option (Option ℕ) → ℕ → LoginState → Type 0
  Counting block k st = (st.fails ip ≡ some (counter k)) × (st.blocks ip ≡ block)

  -- locked out by the failure at `t`
  abbrev IsOut : ℕ → LoginState → Type 0
  IsOut t st = (st.fails ip ≡ none) × (st.blocks ip ≡ some (lock_expiry t l.lockout))

  -- locked out at the last failure, or so many failures
  abbrev Ended : Option (Option ℕ) → ℕ → ℕ → LoginState → Type 0
  Ended block k t st = ((k ≡ suc n) × IsOut t st) ⊎ ((k ≤ n) × Counting block k st)
