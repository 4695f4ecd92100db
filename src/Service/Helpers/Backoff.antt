-- ===== src/Service/Helpers/Backoff.antt =====
-- The delays before the next attempt.
use native.Mathlib.Nat.{two-pow-succ, add-mod}
use mathlib.Core.Path.{subst}
use maild.Base.{
  ℕ, zero, suc, ◌+◌, ◌-◌, ◌*◌, ◌%◌, ◌^◌, ◌<◌, ◌≡◌, ◌∙◌, refl, ap, true, arith, ltb, ◌==◌, ==_iff,
  if◌then◌else◌, all_below, all_below_sound,
}
use maild.Service.Helpers.{
  shl_one, signed_gt, first_at_least, capped_backoff, backoff_duration, webhook_backoff_duration,
}

-- the smaller number
abbrev pub least : ℕ → ℕ → ℕ
least a b = if ltb b a then b else a

backoff_table : all_below 63 (λ k. backoff_duration (suc k) == least (2 ^ k) 32 * 1000000000) ≡ true
unfolding all_below backoff_duration
backoff_table = refl

webhook_table :
    all_below 63 (λ k. webhook_backoff_duration (suc k) == least (2 ^ k) 8 * 1000000000) ≡ true
unfolding all_below webhook_backoff_duration
webhook_table = refl

-- For the attempts 1 to 63, backoffDuration waits 1, 2, 4, … seconds, 32 at most, and
-- webhookBackoffDuration does so up to 8 seconds.
pub backoffs_double :
    (k : ℕ)
    → k < 63
    → (backoff_duration (suc k) ≡ least (2 ^ k) 32 * 1000000000)
      × (webhook_backoff_duration (suc k) ≡ least (2 ^ k) 8 * 1000000000)
backoffs_double k h = (
  (==_iff _ _).0 (all_below_sound 63 _ k backoff_table h),
  (==_iff _ _).0 (all_below_sound 63 _ k webhook_table h),
)

shifted_out : (k : ℕ) → shl_one (k + 64) ≡ 0
shifted_out zero = refl
shifted_out (suc k) =
    subst (λ n. shl_one n ≡ 0) (omega arith)
      (ap (λ n. n % 2 ^ 64) (two-pow-succ (k + 64))
        ∙ add-mod (2 ^ (k + 64)) (2 ^ (k + 64)) (2 ^ 64)
        ∙ ap (λ n. (n + n) % 2 ^ 64) (shifted_out k))

no_delay : (most n : ℕ) → shl_one (first_at_least n - 1) ≡ 0 → capped_backoff most n ≡ 0
unfolding capped_backoff
no_delay most n h =
    ap (λ x. (if signed_gt x most then most else x) * 1000000000 % 2 ^ 64) h ∙ ground arith

shift_from_65 : (k : ℕ) → shl_one (first_at_least (suc k + 64) - 1) ≡ 0
shift_from_65 k = subst (λ n. shl_one n ≡ 0) (ground arith) (shifted_out k)

-- From attempt 64 on the shift leaves the 64-bit number, and the delay is zero in both functions.
pub backoff_duration_overflows :
    (k : ℕ) → (backoff_duration (k + 64) ≡ 0) × (webhook_backoff_duration (k + 64) ≡ 0)
unfolding backoff_duration webhook_backoff_duration
backoff_duration_overflows zero = (refl, refl)
backoff_duration_overflows (suc k) =
    (no_delay 32 (suc k + 64) (shift_from_65 k), no_delay 8 (suc k + 64) (shift_from_65 k))
