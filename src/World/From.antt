-- ===== src/World/From.antt =====
-- How an action ends that starts in a given state: like Ends, with what the queries answer there.
use maild.Base.{
  ℕ, ◌≡◌, ◌⊎◌, inl, inr, refl, sym, ◌∙◌, Bool, true, false, List, [], ◌∷◌, if◌then◌else◌,
}
use mathlib.Core.Path.{subst}
use maild.Store.Defs.{Db, Err, db_error, Result, ok, err}
use maild.World.{
  State, Fault, fine, refused, lost, next_outcome, World, Act, pure, raise, or_raise, ◌>>=◌, handle,
  query, exec, attempt, clock,
}
use maild.World.Keeps.{Keeps}
use maild.World.Ends.{Post, Ends}

-- Whatever goes wrong on the way, from the state `st` the action returns a value that satisfies `Q`
-- or fails with an error that satisfies `E`.
pub record EndsFrom {A : Type 0} (st : State) (Q : A → Type 0) (E : Err → Type 0) (m : Act A)
    : Type 0 where
  pub at : (w : World) → w.state ≡ st → Post Q E (m w).0

-- a query that answers does so from the tables, changes nothing, and fails otherwise
query_ends :
    {A : Type 0} (f : Db → Result A) (w : World)
    → ((query f w).1.state ≡ w.state)
      × (((query f w).0 ≡ f w.state.db) ⊎ ((query f w).0 ≡ err db_error))
unfolding query attempt
query_ends f w = by_fault w.faults
  where
    by_fault :
        (fs : List Fault)
        → ((next_outcome db_error fs (f w.state.db, w.state) w).1.state ≡ w.state)
          × (((next_outcome db_error fs (f w.state.db, w.state) w).0 ≡ f w.state.db)
              ⊎ ((next_outcome db_error fs (f w.state.db, w.state) w).0 ≡ err db_error))
    by_fault [] = (refl, inl refl)
    by_fault (fine ∷ fs) = (refl, inl refl)
    by_fault (refused ∷ fs) = (refl, inr refl)
    by_fault (lost ∷ fs) = (refl, inr refl)

module _ {A : Type 0} (st : State) (Q : A → Type 0) (E : Err → Type 0) where
  pub From-Ends : (m : Act A) → Ends Q E m → EndsFrom st Q E m
  From-Ends m h = record { at = λ w _. h.at w }

  pub From-pure : (a : A) → Q a → EndsFrom st Q E (pure a)
  unfolding pure
  From-pure a q = record { at = λ w _. q }

  pub From-if :
      (b : Bool) (m n : Act A)
      → (b ≡ true → EndsFrom st Q E m)
      → (b ≡ false → EndsFrom st Q E n)
      → EndsFrom st Q E (if b then m else n)
  From-if true m n km kn = km refl
  From-if false m n km kn = kn refl

pub From-clock :
    {B : Type 0} (st : State) (Q : B → Type 0) (E : Err → Type 0) (k : ℕ → Act B)
    → ((now : ℕ) → EndsFrom st Q E (k now))
    → EndsFrom st Q E (clock >>= k)
unfolding ◌>>=◌ handle clock
From-clock st Q E k h = record { at = λ w e. (h w.state.now).at w e }

-- what follows a query: it goes on with what the tables answer, or ends with the query's own error
pub after_query :
    {A B : Type 0} (Q : B → Type 0) (E : Err → Type 0) (f : Db → Result A) (k : A → Act B)
    (w : World)
    → ((a : A) → f w.state.db ≡ ok a → (w' : World) → w'.state ≡ w.state → Post Q E (k a w').0)
    → ((e : Err) → (query f w).0 ≡ err e → E e)
    → Post Q E ((query f >>= k) w).0
unfolding ◌>>=◌ handle raise
after_query {A} Q E f k w go stop =
    let (same, answer) = query_ends f w in by_result (query f w).0 refl answer same
  where
    by_result :
        (r : Result A)
        → (query f w).0 ≡ r
        → (r ≡ f w.state.db) ⊎ (r ≡ err db_error)
        → (query f w).1.state ≡ w.state
        → Post Q E (or_raise k r (query f w).1).0
    by_result (ok a) q (inl p) same = go a (sym p) (query f w).1 same
    by_result (ok a) q (inr p) same = absurd cc
    by_result (err x) q p same = stop x q

-- a statement leaves the queue alone; it has its effect or none, and gives its answer or an error
pub exec_ends :
    {A : Type 0} (f : ℕ → Db → Result A × Db) (w : World)
    → ((exec f w).1.state.queue ≡ w.state.queue)
      × (((exec f w).1.state.db ≡ w.state.db)
          ⊎ ((exec f w).1.state.db ≡ (f w.state.now w.state.db).1))
      × (((exec f w).0 ≡ (f w.state.now w.state.db).0) ⊎ ((exec f w).0 ≡ err db_error))
unfolding exec attempt
exec_ends {A} f w = by_fault w.faults
  where
    changed : Result A × State
    changed = ((f w.state.now w.state.db).0, record w.state { db = (f w.state.now w.state.db).1 })

    by_fault :
        (fs : List Fault)
        → ((next_outcome db_error fs changed w).1.state.queue ≡ w.state.queue)
          × (((next_outcome db_error fs changed w).1.state.db ≡ w.state.db)
              ⊎ ((next_outcome db_error fs changed w).1.state.db ≡ (f w.state.now w.state.db).1))
          × (((next_outcome db_error fs changed w).0 ≡ (f w.state.now w.state.db).0)
              ⊎ ((next_outcome db_error fs changed w).0 ≡ err db_error))
    by_fault [] = (refl, inr refl, inl refl)
    by_fault (fine ∷ fs) = (refl, inr refl, inl refl)
    by_fault (refused ∷ fs) = (refl, inl refl, inr refl)
    by_fault (lost ∷ fs) = (refl, inr refl, inr refl)

pub From-query :
    {A B : Type 0} (st : State) (Q : B → Type 0) (E : Err → Type 0) (f : Db → Result A)
    (k : A → Act B)
    → ((a : A) → f st.db ≡ ok a → EndsFrom st Q E (k a))
    → ((e : Err) → E e)
    → EndsFrom st Q E (query f >>= k)
From-query st Q E f k h stop = record {
  at = λ w e.
      after_query Q E f k w (λ a p w' same. (h a (subst (λ s. f s.db ≡ ok a) e p)).at w' (same ∙ e))
        (λ x _. stop x);
}

-- an action that leaves the state alone, and what follows it
pub From-bind :
    {A B : Type 0} (st : State) (Q : B → Type 0) (E : Err → Type 0) (R : A → Type 0) (m : Act A)
    (k : A → Act B)
    → Keeps (λ s. s ≡ st) m
    → EndsFrom st R E m
    → ((a : A) → R a → EndsFrom st Q E (k a))
    → EndsFrom st Q E (m >>= k)
unfolding ◌>>=◌ handle raise
From-bind {A} st Q E R m k kept ends h = record {
  at = λ w e. on_result (m w).0 (m w).1 (ends.at w e) (kept.at w e);
}
  where
    on_result : (r : Result A) (w : World) → Post R E r → w.state ≡ st → Post Q E (or_raise k r w).0
    on_result (ok a) w q same = (h a q).at w same
    on_result (err x) w q same = q
