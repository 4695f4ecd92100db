-- ===== src/World/Keeps.antt =====
-- Invariants of actions: one rule for each way to build an action.
use maild.Base.{◌≡◌, refl, ℕ, Bool, true, false, List, [], ◌∷◌, if◌then◌else◌}
use maild.Store.Defs.{Db, Err, Result, ok, err}
use maild.World.{
  State, Fault, fine, refused, lost, World, Act, next_outcome, or_raise, pure, raise, attempt,
  handle, ◌>>=◌, ignore, query, exec, redis, clock,
}

-- Whatever goes wrong, `m` keeps `P` of the state, whether it returns or fails.
pub record Keeps {A : Type 0} (P : State → Type 0) (m : Act A) : Type 0 where
  pub at : (w : World) → P w.state → P (m w).1.state

module _ {A : Type 0} {P : State → Type 0} where
  pub Keeps-pure : (a : A) → Keeps P (pure a)
  unfolding pure
  Keeps-pure a = record { at = λ w h. h }

  pub Keeps-raise : (e : Err) → Keeps P (raise {A = A} e)
  unfolding raise
  Keeps-raise e = record { at = λ w h. h }

  pub Keeps-attempt :
      (e : Err) (f : State → Result A × State)
      → ((s : State) → P s → P (f s).1)
      → Keeps P (attempt e f)
  unfolding attempt
  Keeps-attempt e f k = record { at = λ w h. by_fault w w.faults h }
    where
      by_fault :
          (w : World) (fs : List Fault) → P w.state → P (next_outcome e fs (f w.state) w).1.state
      by_fault w [] h = k w.state h
      by_fault w (fine ∷ fs) h = k w.state h
      by_fault w (refused ∷ fs) h = h
      by_fault w (lost ∷ fs) h = k w.state h

  pub Keeps-query : (f : Db → Result A) → Keeps P (query f)
  unfolding query
  Keeps-query f = Keeps-attempt _ _ (λ s h. h)

  pub Keeps-exec :
      (f : ℕ → Db → Result A × Db)
      → ((s : State) → P s → P (record s { db = (f s.now s.db).1 }))
      → Keeps P (exec f)
  unfolding exec
  Keeps-exec f k = Keeps-attempt _ _ k

  pub Keeps-redis : (f : State → A × State) → ((s : State) → P s → P (f s).1) → Keeps P (redis f)
  unfolding redis
  Keeps-redis f k = Keeps-attempt _ _ k

  pub Keeps-if :
      (test : Bool) (yes_path no_path : Act A)
      → (test ≡ true → Keeps P yes_path)
      → (test ≡ false → Keeps P no_path)
      → Keeps P (if test then yes_path else no_path)
  Keeps-if true yes_path no_path on_true on_false = on_true refl
  Keeps-if false yes_path no_path on_true on_false = on_false refl

  pub Keeps-ignore : (m : Act A) → Keeps P m → Keeps P (ignore m)
  unfolding ignore
  Keeps-ignore m k = record { at = λ w h. k.at w h }

pub Keeps-clock : {P : State → Type 0} → Keeps P clock
unfolding clock
Keeps-clock = record { at = λ w h. h }

module _ {A B : Type 0} {P : State → Type 0} where
  pub Keeps-handle :
      (m : Act A) (k : Result A → Act B)
      → Keeps P m
      → ((r : Result A) → Keeps P (k r))
      → Keeps P (handle m k)
  unfolding handle
  Keeps-handle m k km kk = record { at = λ w h. (kk (m w).0).at (m w).1 (km.at w h) }

  pub Keeps-bind :
      (m : Act A) (f : A → Act B) → Keeps P m → ((a : A) → Keeps P (f a)) → Keeps P (m >>= f)
  unfolding ◌>>=◌
  Keeps-bind m f km kf = Keeps-handle m _ km (λ r. on_result r)
    where
      on_result : (r : Result A) → Keeps P (or_raise f r)
      on_result (ok a) = kf a
      on_result (err e) = Keeps-raise e

pub ruleset keeps_rules = (
  Keeps-pure, Keeps-raise, Keeps-query, Keeps-if, Keeps-ignore, Keeps-clock, Keeps-handle,
  Keeps-bind,
)
