-- ===== src/World/Grants.antt =====
-- Actions that only look: `Grants P R m` says that `m` keeps `P`, and that where it returns a value,
-- the value satisfies `R`.
use maild.Base.{ℕ, ◌≡◌, refl, sym, Bool, true, false, List, [], ◌∷◌, if◌then◌else◌}
use mathlib.Core.Path.{subst}
use maild.Store.Defs.{Db, Err, db_error, Result, ok, err}
use maild.World.{
  State, Fault, fine, refused, lost, World, Act, next_outcome, pure, raise, handle, or_raise, ◌>>=◌,
  attempt, query, exec, clock,
}
use maild.World.Keeps.{Keeps}
use maild.World.Ends.{Post}
use maild.World.Ensures.{Ensures}

abbrev pub Granted : {A : Type 0} → (A → Type 0) → Result A → Type 0
Granted R r = Post R (λ _. Unit {0}) r

pub record Grants {A : Type 0} (P : State → Type 0) (R : A → Type 0) (m : Act A) : Type 0 where
  pub at : (w : World) → P w.state → P (m w).1.state × Granted R (m w).0

module _ {A : Type 0} (P : State → Type 0) (R : A → Type 0) where
  pub Grants-pure : (a : A) → R a → Grants P R (pure a)
  unfolding pure
  Grants-pure a r = record { at = λ w h. (h, r) }

  pub Grants-raise : (e : Err) → Grants P R (raise e)
  unfolding raise
  Grants-raise e = record { at = λ w h. (h, tt) }

  pub Grants-if :
      (b : Bool) (m n : Act A)
      → (b ≡ true → Grants P R m)
      → (b ≡ false → Grants P R n)
      → Grants P R (if b then m else n)
  Grants-if true m n km kn = km refl
  Grants-if false m n km kn = kn refl

pub Grants-kept :
    {A : Type 0} (P : State → Type 0) (m : Act A) → Keeps P m → Grants P (λ _. Unit {0}) m
Grants-kept {A} P m k = record { at = λ w h. (k.at w h, any_result (m w).0) }
  where
    any_result : (r : Result A) → Granted (λ _. Unit {0}) r
    any_result (ok a) = tt
    any_result (err e) = tt

module _ {A B : Type 0} (P : State → Type 0) where
  pub Grants-bind :
      (S : A → Type 0) (R : B → Type 0) (m : Act A) (f : A → Act B)
      → Grants P S m
      → ((a : A) → S a → Grants P R (f a))
      → Grants P R (m >>= f)
  unfolding ◌>>=◌ handle raise
  Grants-bind S R m f km kf = record { at = λ w h. on_result (m w).0 (m w).1 (km.at w h) }
    where
      on_result :
          (r : Result A) (w : World)
          → P w.state × Granted S r
          → P (or_raise f r w).1.state × Granted R (or_raise f r w).0
      on_result (ok a) w h = (kf a h.1).at w h.0
      on_result (err e) w h = (h.0, tt)

  -- what was granted is known in the rest
  pub Ensures-grant :
      (S : A → Type 0) (Q : State → Type 0) (m : Act A) (f : A → Act B)
      → ((s : State) → P s → Q s)
      → Grants P S m
      → ((a : A) → S a → Ensures P Q (f a))
      → Ensures P Q (m >>= f)
  unfolding ◌>>=◌ handle raise
  Ensures-grant S Q m f stop km kf = record { at = λ w h. on_result (m w).0 (m w).1 (km.at w h) }
    where
      on_result : (r : Result A) (w : World) → P w.state × Granted S r → Q (or_raise f r w).1.state
      on_result (ok a) w h = (kf a h.1).at w h.0
      on_result (err e) w h = stop _ h.0

module _ {A : Type 0} (P : State → Type 0) where
  -- a query, where `P` fixes the tables
  pub Grants-query :
      (d : Db) (f : Db → Result A)
      → ((s : State) → P s → s.db ≡ d)
      → Grants P (λ a. f d ≡ ok a) (query f)
  unfolding query attempt
  Grants-query d f agree = record { at = λ w h. by_fault w w.faults h }
    where
      granted : (r : Result A) → f d ≡ r → Granted (λ a. f d ≡ ok a) r
      granted (ok a) e = e
      granted (err x) e = tt

      by_fault :
          (w : World) (fs : List Fault)
          → P w.state
          → P (next_outcome db_error fs (f w.state.db, w.state) w).1.state
            × Granted (λ a. f d ≡ ok a) (next_outcome db_error fs (f w.state.db, w.state) w).0
      by_fault w [] h = (h, granted (f w.state.db) (subst (λ x. f d ≡ f x) (sym (agree _ h)) refl))
      by_fault w (fine ∷ fs) h =
          (h, granted (f w.state.db) (subst (λ x. f d ≡ f x) (sym (agree _ h)) refl))
      by_fault w (refused ∷ fs) h = (h, tt)
      by_fault w (lost ∷ fs) h = (h, tt)

  -- a statement leads to `Q` if it does where it runs
  pub Ensures-exec :
      (Q : State → Type 0) (f : ℕ → Db → Result A × Db)
      → ((s : State) → P s → Q s)
      → ((s : State) → P s → Q (record s { db = (f s.now s.db).1 }))
      → Ensures P Q (exec f)
  unfolding exec attempt
  Ensures-exec Q f stop run = record { at = λ w h. by_fault w w.faults h }
    where
      by_fault :
          (w : World) (fs : List Fault)
          → P w.state
          → Q
              (next_outcome db_error fs
                ((f w.state.now w.state.db).0, record w.state { db = (f w.state.now w.state.db).1 })
                w).1.state
      by_fault w [] h = run _ h
      by_fault w (fine ∷ fs) h = run _ h
      by_fault w (refused ∷ fs) h = stop _ h
      by_fault w (lost ∷ fs) h = run _ h

pub Grants-clock :
    (P : State → Type 0) (t : ℕ) → ((s : State) → P s → s.now ≡ t) → Grants P (λ now. now ≡ t) clock
unfolding clock
Grants-clock P t agree = record { at = λ w h. (h, agree _ h) }
