-- ===== src/World/Ends.antt =====
-- How an action ends: `Ends Q E m` says that whatever goes wrong on the way, `m` returns a value
-- that satisfies `Q` or fails with an error that satisfies `E`.
use maild.Base.{ℕ, ◌≡◌, refl, Bool, true, false, List, [], ◌∷◌, if◌then◌else◌}
use maild.Store.Defs.{Db, Err, db_error, Result, ok, err}
use maild.World.{
  Fault, fine, refused, lost, next_outcome, exec, attempt, clock, World, Act, pure, raise, handle,
  or_raise, ◌>>=◌, ignore, query,
}

abbrev pub Post : {A : Type 0} → (A → Type 0) → (Err → Type 0) → Result A → Type 0
Post Q E (ok a) = Q a
Post Q E (err e) = E e

pub record Ends {A : Type 0} (Q : A → Type 0) (E : Err → Type 0) (m : Act A) : Type 0 where
  pub at : (w : World) → Post Q E (m w).0

-- an action that never fails
abbrev pub Yields : {A : Type 0} → (A → Type 0) → Act A → Type 0
Yields Q m = Ends Q (λ _. ⊥) m

module _ {A : Type 0} (Q : A → Type 0) (E : Err → Type 0) where
  pub Ends-pure : (a : A) → Q a → Ends Q E (pure a)
  unfolding pure
  Ends-pure a q = record { at = λ w. q }

  pub Ends-raise : (e : Err) → E e → Ends Q E (raise e)
  unfolding raise
  Ends-raise e q = record { at = λ w. q }

  pub Ends-if :
      (b : Bool) (m n : Act A)
      → (b ≡ true → Ends Q E m)
      → (b ≡ false → Ends Q E n)
      → Ends Q E (if b then m else n)
  Ends-if true m n km kn = km refl
  Ends-if false m n km kn = kn refl

  pub Ends-any : (m : Act A) → ((a : A) → Q a) → ((e : Err) → E e) → Ends Q E m
  Ends-any m q e = record { at = λ w. of_result (m w).0 }
    where
      of_result : (r : Result A) → Post Q E r
      of_result (ok a) = q a
      of_result (err x) = e x

pub Ends-ignore : {A : Type 0} (E : Err → Type 0) (m : Act A) → Ends (λ _. Unit {0}) E (ignore m)
unfolding ignore
Ends-ignore E m = record { at = λ w. tt }

pub Ends-clock : (E : Err → Type 0) → Ends (λ _. Unit {0}) E clock
unfolding clock
Ends-clock E = record { at = λ w. tt }

module _ {A B : Type 0} (Q : B → Type 0) (E : Err → Type 0) where
  pub Ends-handle :
      (m : Act A) (k : Result A → Act B) → ((r : Result A) → Ends Q E (k r)) → Ends Q E (handle m k)
  unfolding handle
  Ends-handle m k h = record { at = λ w. (h (m w).0).at (m w).1 }

  pub Ends-bind :
      (R : A → Type 0) (m : Act A) (f : A → Act B)
      → Ends R E m
      → ((a : A) → R a → Ends Q E (f a))
      → Ends Q E (m >>= f)
  unfolding ◌>>=◌ raise
  Ends-bind R m f km kf = record { at = λ w. on_result (m w).0 (km.at w) (m w).1 }
    where
      on_result : (r : Result A) → Post R E r → (w : World) → Post Q E (or_raise f r w).0
      on_result (ok a) q w = (kf a q).at w
      on_result (err e) q w = q

-- what is known of a statement's answer is known of the answer that the code goes on with
pub Ends-handle-exec :
    {A B : Type 0} (Q : B → Type 0) (E : Err → Type 0) (R : A → Type 0) (f : ℕ → Db → Result A × Db)
    (k : Result A → Act B)
    → ((now : ℕ) (db : Db) → Post R (λ _. Unit {0}) (f now db).0)
    → ((r : Result A) → Post R (λ _. Unit {0}) r → Ends Q E (k r))
    → Ends Q E (handle (exec f) k)
unfolding handle exec attempt
Ends-handle-exec Q E R f k answer h = record { at = λ w. by_fault w w.faults }
  where
    by_fault :
        (w : World) (fs : List Fault)
        → Post Q E
            (handle
              (λ w'.
                next_outcome db_error fs
                  (
                    (f w'.state.now w'.state.db).0,
                    record w'.state { db = (f w'.state.now w'.state.db).1 },
                  )
                  w')
              k
              w).0
    by_fault w [] = (h (f w.state.now w.state.db).0 (answer _ _)).at _
    by_fault w (fine ∷ fs) = (h (f w.state.now w.state.db).0 (answer _ _)).at _
    by_fault w (refused ∷ fs) = (h (err db_error) tt).at _
    by_fault w (lost ∷ fs) = (h (err db_error) tt).at _

-- weaker conditions
pub weaken :
    {A : Type 0} {Q Q' : A → Type 0} {E E' : Err → Type 0} {m : Act A}
    → ((a : A) → Q a → Q' a)
    → ((e : Err) → E e → E' e)
    → Ends Q E m
    → Ends Q' E' m
weaken {A} {Q} {Q'} {E} {E'} {m} f g h = record { at = λ w. of_result (m w).0 (h.at w) }
  where
    of_result : (r : Result A) → Post Q E r → Post Q' E' r
    of_result (ok a) q = f a q
    of_result (err e) q = g e q

-- a query answers with what holds of its answers whatever the tables are
pub Ends-query :
    {A : Type 0} (Q : A → Type 0) (f : Db → Result A)
    → ((db : Db) → Post Q (λ _. Unit {0}) (f db))
    → Ends Q (λ _. Unit {0}) (query f)
unfolding query attempt
Ends-query Q f answer = record { at = λ w. by_fault w w.faults }
  where
    by_fault :
        (w : World) (fs : List Fault)
        → Post Q (λ _. Unit {0}) (next_outcome db_error fs (f w.state.db, w.state) w).0
    by_fault w [] = answer w.state.db
    by_fault w (fine ∷ fs) = answer w.state.db
    by_fault w (refused ∷ fs) = tt
    by_fault w (lost ∷ fs) = tt

pub Ends-handle-query :
    {A B : Type 0} (Q : B → Type 0) (E : Err → Type 0) (R : A → Type 0) (f : Db → Result A)
    (k : Result A → Act B)
    → ((db : Db) → Post R (λ _. Unit {0}) (f db))
    → ((r : Result A) → Post R (λ _. Unit {0}) r → Ends Q E (k r))
    → Ends Q E (handle (query f) k)
unfolding handle
Ends-handle-query Q E R f k answer h = record {
  at = λ w. (h (query f w).0 ((Ends-query R f answer).at w)).at (query f w).1;
}
