-- ===== src/Service/Recovery/Claimed.antt =====
-- internal/store/postgres/postgres.go: which ids are claimed for the recovery.
use maild.Base.{
  ℕ, zero, suc, ◌≤◌, ◌≡◌, refl, inl, inr, Bool, true, false, not, List, [], ◌∷◌, arith, length,
  take, map, keep, any, any-take, update_if, Bool-cases, ==_refl,
}
use maild.Domain.{queued, Message}
use maild.Store.Defs.{Db}
use maild.Store.Messages.{
  insert_id, sort_ids, message_id, recoverable, sort_oldest, insert_oldest, recovery_candidates,
  has_id_status, claim_queued_messages_for_recovery, is_stale, put_unknown,
}

length-insert_id : (i : ℕ) (ids : List ℕ) → length (insert_id i ids) ≡ suc (length ids)
unfolding insert_id
length-insert_id i [] = refl
length-insert_id i (j ∷ js) = ground (arith, length-insert_id i js)

length-sort_ids : (ids : List ℕ) → length (sort_ids ids) ≡ length ids
unfolding sort_ids
length-sort_ids [] = refl
length-sort_ids (i ∷ is) = omega (arith, length-insert_id i (sort_ids is), length-sort_ids is)

length-take-map : (n : ℕ) (ms : List Message) → length (map message_id (take n ms)) ≤ n
length-take-map zero ms = omega arith
length-take-map (suc n) [] = omega arith
length-take-map (suc n) (m ∷ ms) = omega (arith, length-take-map n ms)

pub claimed_bound :
    (older_than limit now : ℕ) (db : Db)
    → length (claim_queued_messages_for_recovery older_than limit now db).0 ≤ limit
unfolding claim_queued_messages_for_recovery recovery_candidates
claimed_bound older_than limit now db = omega (
  arith,
  length-sort_ids
      (map message_id (take limit (sort_oldest (keep (recoverable older_than now) db.messages)))),
  length-take-map limit (sort_oldest (keep (recoverable older_than now) db.messages)),
)

-- whether the rows have the id with the status 'queued'
abbrev pub queued_in : List Message → ℕ → Bool
queued_in ms id = any (has_id_status id queued) ms

module _ (p : ℕ → Bool) where
  any-insert_id :
      (i : ℕ) (ids : List ℕ) → p i ≡ false → any p ids ≡ false → any p (insert_id i ids) ≡ false
  unfolding any insert_id
  any-insert_id i [] h k = ground (arith, h)
  any-insert_id i (j ∷ js) h k = ground (arith, h, k, any-insert_id i js h)

  any-sort_ids : (ids : List ℕ) → any p ids ≡ false → any p (sort_ids ids) ≡ false
  unfolding any sort_ids
  any-sort_ids [] h = refl
  any-sort_ids (i ∷ is) h =
      any-insert_id i (sort_ids is) (ground (arith, h)) (any-sort_ids is (ground (arith, h)))

  any-map_id :
      (ms : List Message) → any (λ m. p m.id) ms ≡ false → any p (map message_id ms) ≡ false
  unfolding any
  any-map_id [] h = refl
  any-map_id (m ∷ ms) h = ground (arith, h, any-map_id ms)

any-insert_oldest :
    (p : Message → Bool) (m : Message) (ms : List Message)
    → p m ≡ false
    → any p ms ≡ false
    → any p (insert_oldest m ms) ≡ false
unfolding any insert_oldest
any-insert_oldest p m [] h k = ground (arith, h)
any-insert_oldest p m (x ∷ xs) h k = ground (arith, h, k, any-insert_oldest p m xs h)

any-sort_oldest :
    (p : Message → Bool) (ms : List Message) → any p ms ≡ false → any p (sort_oldest ms) ≡ false
unfolding any sort_oldest
any-sort_oldest p [] h = refl
any-sort_oldest p (m ∷ ms) h =
    any-insert_oldest p m (sort_oldest ms) (ground (arith, h))
      (any-sort_oldest p ms (ground (arith, h)))

-- each id that has a queued row here has one there
abbrev pub QueuedThere : List Message → List Message → Type 0
QueuedThere ms there = (id : ℕ) → queued_in ms id ≡ true → queued_in there id ≡ true

recoverable-queued :
    (older_than now : ℕ) (there ms : List Message)
    → QueuedThere ms there
    → any (λ m. not (queued_in there m.id)) (keep (recoverable older_than now) ms) ≡ false
unfolding any keep
recoverable-queued older_than now there [] h = refl
recoverable-queued older_than now there (m ∷ ms) h =
    let later = recoverable-queued older_than now there ms (λ id k. h id (ground (arith, k))) in
    elim (Bool-cases (recoverable older_than now m)) [
      | inl e ↦ rw (e, h m.id (ground (arith, e, ==_refl m.id)), later) refl
      | inr e ↦ rw e later
    ]

pub claimed_queued :
    (older_than limit now : ℕ) (db : Db) (there : List Message)
    → QueuedThere db.messages there
    → any
        (λ id. not (queued_in there id))
        (claim_queued_messages_for_recovery older_than limit now db).0
      ≡ false
unfolding claim_queued_messages_for_recovery recovery_candidates
claimed_queued older_than limit now db there h = any-sort_ids _ _ (
    any-map_id _ _ (
      any-take _ _ _ (any-sort_oldest _ _ (recoverable-queued older_than now there db.messages h))))

-- marking makes no row queued
pub mark-QueuedThere :
    (older_than now : ℕ) (ms : List Message)
    → QueuedThere (update_if (is_stale older_than) (put_unknown now) ms) ms
unfolding any update_if
mark-QueuedThere older_than now [] id h = h
mark-QueuedThere older_than now (m ∷ ms) id h = elim (Bool-cases (is_stale older_than m)) [
  | inl e ↦ ground (arith, rw e at h, mark-QueuedThere older_than now ms id)
  | inr e ↦ ground (arith, rw e at h, mark-QueuedThere older_than now ms id)
]
