-- ===== src/Service/Events/Attempts.antt =====
-- The number of attempts of applyWebhookEventWithRetry.
use maild.Base.{ℕ, zero, suc, ◌+◌, ◌≤◌, String, arith, str_eq, ◌||◌}
use maild.Store.Defs.{Err, other, Result, ok, err}
use maild.World.{Act}
use maild.World.Ends.{Yields, Ends-pure, Ends-if, Ends-handle, weaken}
use maild.Service.Defs.{MessageService}
use maild.Service.Events.{apply_once, apply_rounds, apply_with_retry}

-- between one attempt and the number of them that is left
abbrev Within : ℕ → ℕ → ℕ × Result (Unit {0}) → Type 0
Within number left r = (suc number ≤ r.0) × (r.0 ≤ number + left)

rounds-Within :
    (left number : ℕ) (last : Err) (round : Act (Unit {0}))
    → Yields (Within number (suc left)) (apply_rounds (suc left) number last round)
unfolding apply_rounds
rounds-Within zero number last round = Ends-handle _ _ _ _ (elim [
  | ok _ ↦ Ends-pure _ _ _ (omega arith, omega arith)
  | err e ↦ Ends-pure _ _ _ (omega arith, omega arith)
])
rounds-Within (suc left) number last round = Ends-handle _ _ _ _ (elim [
  | ok _ ↦ Ends-pure _ _ _ (omega arith, omega arith)
  | err e ↦
      weaken (λ r h. (omega (arith, h.0), omega (arith, h.1))) (λ _ b. b)
        (rounds-Within left (suc number) e round)
])

-- applyWebhookEventWithRetry never fails itself, and makes at least one attempt and at most
-- `webhookApplyMaxAttempts`, where this is at least 1, as NewMessageService makes it.
pub apply_with_retry_attempts :
    (s : MessageService) (ws : ℕ) (event_type email reason : String)
    → 1 ≤ s.webhook_apply_max_attempts
    → Yields
        (λ r. (1 ≤ r.0) × (r.0 ≤ s.webhook_apply_max_attempts))
        (apply_with_retry s ws event_type email reason)
unfolding apply_with_retry
apply_with_retry_attempts s ws event_type email reason h =
    Ends-if _ _ (str_eq event_type "bounce_temporary") _ _ (λ _. Ends-pure _ _ _ (omega arith, h))
      (λ _.
        Ends-if _ _ (str_eq event_type "bounce_unclassified" || str_eq event_type "bounce") _ _
          (λ _. Ends-pure _ _ _ (omega arith, h)) (λ _. by_most s.webhook_apply_max_attempts h))
  where
    by_most :
        (n : ℕ)
        → 1 ≤ n
        → Yields
            (λ r. (1 ≤ r.0) × (r.0 ≤ n))
            (apply_rounds n 0 (other "") (apply_once ws event_type email reason))
    by_most zero h' = absurd (omega arith)
    by_most (suc n) h' =
        weaken (λ r k. (k.0, omega (arith, k.1))) (λ _ b. b)
          (rounds-Within n 0 (other "") (apply_once ws event_type email reason))
