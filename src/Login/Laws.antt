-- ===== src/Login/Laws.antt =====
-- When a client is locked out of the sign-in, and when it is let in again.
use maild.Base.{ℕ, suc, ◌≤◌, ◌≡◌, Bool, true, ◌&&◌, ◌||◌, not, String, arith, str_eq, if◌then◌else◌}
use maild.Base.Int.{pos, leb_ℤ}
use maild.Store.Defs.{ok}
use maild.Login.{
  LoginRateLimiter, LoginState, Answers, is_locked, failures, record_failure, reset, live_block,
}

-- every command goes through
abbrev pub all_fine : Answers
all_fine = record {
  on_exists = true;
  on_incr = true;
  on_expire = true;
  on_set = true;
  on_del = true;
  on_del_block = true;
}

-- whether the next failure of the address locks it out
abbrev pub locks_next : LoginRateLimiter → String → ℕ → LoginState → Bool
locks_next l ip now st = leb_ℤ l.max_failures (pos (suc (failures ip now st)))

-- With a client, and where every command goes through, RecordFailure locks out its address exactly if
-- this failure reaches the maximum, and starts the count again then; otherwise the address has one
-- failure more. No other address is concerned. The failure window must be positive.
pub record_failure_lem :
    (l : LoginRateLimiter) (ip ip' : String) (now : ℕ) (st : LoginState)
    → l.connected ≡ true
    → 1 ≤ l.failure_window
    → (is_locked l all_fine ip' now (record_failure l all_fine ip now st).1
        ≡ ok (live_block now (st.blocks ip') || (str_eq ip ip' && locks_next l ip now st)))
      × (failures ip' now (record_failure l all_fine ip now st).1 ≡ (
          if str_eq ip ip'
          then if locks_next l ip now st then 0 else suc (failures ip now st)
          else failures ip' now st))
unfolding is_locked failures record_failure
record_failure_lem l ip ip' now st h w = (ground (arith, h, w), ground (arith, h, w))

-- After Reset, where every command goes through, the address is not locked out and has no failures,
-- and every other address is as before.
pub reset_lem :
    (l : LoginRateLimiter) (ip ip' : String) (now : ℕ) (st : LoginState)
    → l.connected ≡ true
    → (is_locked l all_fine ip' now (reset l all_fine ip st).1
        ≡ ok (not (str_eq ip ip') && live_block now (st.blocks ip')))
      × (failures ip' now (reset l all_fine ip st).1
          ≡ (if str_eq ip ip' then 0 else failures ip' now st))
unfolding is_locked failures reset
reset_lem l ip ip' now st h = (ground (arith, h), ground (arith, h))
