-- ===== src/Service/Queueing/Limits.antt =====
-- The counters of RedisLimiter.
use maild.Base.{
  ℕ, suc, ◌≡◌, refl, ap, sym, ◌∙◌, Bool, true, false, List, [], ◌∷◌, arith, eq_iff, if◌then◌else◌,
}
use maild.World.{RateKey, workspace_window, domain_window}
use maild.Service.Queueing.{same_key, rate_count, increment}

same_key_sound : (j k : RateKey) → same_key j k ≡ true → j ≡ k
same_key_sound (workspace_window ws h) (workspace_window ws' h') e = ground (arith, e)
same_key_sound (domain_window ws d h) (domain_window ws' d' h') e =
    ground (arith, e, (eq_iff d d').0)
same_key_sound (workspace_window ws h) (domain_window ws' d' h') e = cc
same_key_sound (domain_window ws d h) (workspace_window ws' h') e = cc

-- one entry, with the comparisons of its key `i` with `k` and `j`, and of `k` with `j`, as Booleans
one_entry :
    (ik ij kj : Bool) (n rest : ℕ)
    → (ik ≡ true → ij ≡ kj)
    → (ik ≡ false → kj ≡ true → ij ≡ false)
    → (if ik then if ij then suc n else rest else if ij then n else if kj then suc rest else rest)
      ≡ (if kj then suc (if ij then n else rest) else if ij then n else rest)
one_entry true ij kj n rest h k = ground (arith, h refl)
one_entry false ij true n rest h k = ground (arith, k refl refl)
one_entry false ij false n rest h k = refl

rate_count-if :
    (j : RateKey) (b : Bool) (xs ys : List (RateKey × ℕ))
    → rate_count j (if b then xs else ys) ≡ (if b then rate_count j xs else rate_count j ys)
rate_count-if j true xs ys = refl
rate_count-if j false xs ys = refl

-- INCR adds one to the counter of its key, which counts from 0 where it is new, and leaves the
-- counter of every other window.
pub rate_count-increment :
    (j k : RateKey) (rates : List (RateKey × ℕ))
    → rate_count j (increment k rates)
      ≡ (if same_key k j then suc (rate_count j rates) else rate_count j rates)
unfolding rate_count increment
rate_count-increment j k [] = refl
rate_count-increment j k ((i, n) ∷ rates) =
    rate_count-if j (same_key i k) ((i, suc n) ∷ rates) ((i, n) ∷ increment k rates)
    ∙ rw (rate_count-increment j k rates) (
        one_entry (same_key i k) (same_key i j) (same_key k j) n (rate_count j rates)
          (λ h. ap (λ x. same_key x j) (same_key_sound i k h))
          (λ h e. ap (λ x. same_key i x) (sym (same_key_sound k j e)) ∙ h))
