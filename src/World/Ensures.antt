-- ===== src/World/Ensures.antt =====
-- Actions from one predicate of the state to another: `Ensures P Q m` says that from a state with
-- `P`, whatever goes wrong on the way, `m` ends in a state with `Q`.
use maild.Base.{◌≡◌, refl, sym, ◌∙◌, Bool, true, false, List, [], ◌∷◌, if◌then◌else◌}
use mathlib.Core.Path.{subst}
use maild.Store.Defs.{Db, db_error, Result, ok, err}
use maild.World.{
  State, Fault, fine, refused, lost, World, Act, next_outcome, raise, handle, or_raise, ◌>>=◌,
  query,
}
use maild.World.Keeps.{Keeps}

pub record Ensures {A : Type 0} (P Q : State → Type 0) (m : Act A) : Type 0 where
  pub at : (w : World) → P w.state → Q (m w).1.state

module _ {A : Type 0} (P Q : State → Type 0) where
  pub Ensures-kept : (m : Act A) → ((s : State) → P s → Q s) → Keeps P m → Ensures P Q m
  Ensures-kept m f k = record { at = λ w h. f _ (k.at w h) }

  pub Ensures-if :
      (b : Bool) (m n : Act A)
      → (b ≡ true → Ensures P Q m)
      → (b ≡ false → Ensures P Q n)
      → Ensures P Q (if b then m else n)
  Ensures-if true m n km kn = km refl
  Ensures-if false m n km kn = kn refl

module _ {A B : Type 0} (P Q : State → Type 0) where
  -- `m` keeps `P`, and the rest leads on from there
  pub Ensures-handle :
      (m : Act A) (k : Result A → Act B)
      → Keeps P m
      → ((r : Result A) → Ensures P Q (k r))
      → Ensures P Q (handle m k)
  unfolding handle
  Ensures-handle m k km kk = record { at = λ w h. (kk (m w).0).at (m w).1 (km.at w h) }

  pub Ensures-bind :
      (m : Act A) (f : A → Act B)
      → ((s : State) → P s → Q s)
      → Keeps P m
      → ((a : A) → Ensures P Q (f a))
      → Ensures P Q (m >>= f)
  unfolding ◌>>=◌ raise
  Ensures-bind m f stop km kf = Ensures-handle m _ km on_result
    where
      on_result : (r : Result A) → Ensures P Q (or_raise f r)
      on_result (ok a) = kf a
      on_result (err e) = record { at = λ w h. stop _ h }

  -- `m` leads to `Q`, and the rest keeps it
  pub Ensures-then :
      (m : Act A) (k : Result A → Act B)
      → Ensures P Q m
      → ((r : Result A) → Keeps Q (k r))
      → Ensures P Q (handle m k)
  unfolding handle
  Ensures-then m k km kk = record { at = λ w h. (kk (m w).0).at (m w).1 (km.at w h) }

-- the state is still the one at the start
abbrev pub Is : State → State → Type 0
Is s₀ s = s ≡ s₀

module _ {A B : Type 0} (s₀ : State) (Q : State → Type 0) where
  -- A query answers from the tables as they are, and changes nothing.
  pub Ensures-query :
      (f : Db → Result A) (k : A → Act B)
      → Q s₀
      → ((a : A) → f s₀.db ≡ ok a → Ensures (Is s₀) Q (k a))
      → Ensures (Is s₀) Q (query f >>= k)
  unfolding ◌>>=◌ query raise
  Ensures-query f k stop h = record { at = λ w e. by_fault w w.faults e }
    where
      on_result :
          (r : Result A) (w : World)
          → f w.state.db ≡ r
          → w.state ≡ s₀
          → (v : World) → v.state ≡ w.state
          → Q (or_raise k r v).1.state
      on_result (ok a) w e p v q = (h a (subst (λ s. f s.db ≡ ok a) p e)).at v (q ∙ p)
      on_result (err x) w e p v q = subst Q (sym (q ∙ p)) stop

      by_fault :
          (w : World) (fs : List Fault)
          → w.state ≡ s₀
          → Q
              (handle
                (λ w'. next_outcome db_error fs (f w'.state.db, w'.state) w')
                (or_raise k)
                w).1.state
      by_fault w [] p = on_result (f w.state.db) w refl p _ refl
      by_fault w (fine ∷ fs) p = on_result (f w.state.db) w refl p _ refl
      by_fault w (refused ∷ fs) p = subst Q (sym p) stop
      by_fault w (lost ∷ fs) p = subst Q (sym p) stop
