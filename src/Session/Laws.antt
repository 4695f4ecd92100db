-- ===== src/Session/Laws.antt =====
-- How long a session lets its user in.
use maild.Base.{
  ℕ, ◌+◌, ◌*◌, ◌/◌, ◌<◌, ◌≤◌, ◌≡◌, refl, Bool, true, false, Option, none, some, String, arith, ltb,
  ◌==◌, eq_refl, if◌then◌else◌, Bool-cases, inl, inr,
}
use maild.Base.Int.{ℤ}
use maild.Login.{is_live}
use maild.Session.{
  Session, Sessions, Answers, Outcome, done, fails, nanos, ttl_seconds, written, create_session,
  live_session, get_found, get_session,
}

abbrev pub all_fine : Answers
all_fine = record {
  on_random = true;
  on_hset = true;
  on_expire = true;
  on_hmget = true;
  on_del = true;
}

-- the arithmetic of whole seconds
whole : (seconds : ℕ) → 1 ≤ seconds → ttl_seconds (seconds * nanos) ≡ seconds
whole seconds h = ground (arith, h)

positive : (seconds : ℕ) → 1 ≤ seconds → (seconds * nanos == 0) ≡ false
positive seconds h = ground (arith, h)

in_time :
    (now later seconds : ℕ)
    → later < now + seconds * nanos
    → ltb ((now + seconds * nanos) / nanos) (later / nanos) ≡ false
in_time now later seconds h = ground (arith, h)

still_live :
    (now later seconds : ℕ)
    → later < now + seconds * nanos
    → ltb later (now + seconds * nanos) ≡ true
still_live now later seconds h = ground (arith, h)

-- A session of whole seconds lets its user in at every instant before its end.
pub get_session-create_session :
    (id : String) (user : ℤ) (seconds now later : ℕ) (st : Sessions)
    → 1 ≤ seconds
    → later < now + seconds * nanos
    → (get_session all_fine id later (create_session all_fine id user (seconds * nanos) now st).1).0
      ≡ done user
unfolding create_session get_session
get_session-create_session id user seconds now later st s l =
    rw
      (
        positive seconds s,
        whole seconds s,
        eq_refl id,
        still_live now later seconds l,
        in_time now later seconds l,
      )
      refl

-- a lookup that lets nobody in
abbrev pub Refuses : Outcome ℤ → Type 0
Refuses (done user) = ⊥
Refuses (fails e) = Unit

-- what is stored under an id has ended
abbrev HasEnded : ℕ → Option Session → Type 0
HasEnded later none = Unit
HasEnded later (some e) = ltb e.expires_at (later / nanos) ≡ true

get_session-HasEnded :
    (b : Answers) (id : String) (later : ℕ) (st : Sessions)
    → HasEnded later (st id)
    → Refuses (get_session b id later st).0
unfolding get_session
get_session-HasEnded b id later st h = elim (Bool-cases b.on_hmget) [
  | inl e ↦ rw e (by_entry (st id) h)
  | inr e ↦ rw e tt
]
  where
    by_entry :
        (o : Option Session)
        → HasEnded later o
        → Refuses (get_found b id later st (live_session later o)).0
    by_entry none h = tt
    by_entry (some e) h = elim (Bool-cases (is_live later e.dropped_at)) [
      | inl l ↦ rw (l, h) tt
      | inr l ↦ rw l tt
    ]

create_session-HasEnded :
    (a : Answers) (id : String) (user : ℤ) (ttl now later : ℕ) (st : Sessions)
    → st id ≡ none
    → ltb ((now + ttl) / nanos) (later / nanos) ≡ true
    → HasEnded later ((create_session a id user ttl now st).1 id)
unfolding create_session
create_session-HasEnded a id user ttl now later st new ended = elim (Bool-cases a.on_random) [
  | inr r ↦ rw (r, new) tt
  | inl r ↦ elim (Bool-cases a.on_hset) [
    | inr s ↦ rw (r, s, new) tt
    | inl s ↦ elim (Bool-cases a.on_expire) [
      | inr e ↦ rw (r, s, e, eq_refl id) ended
      | inl e ↦ rw (r, s, e, eq_refl id) (kept (ttl == 0))
    ]
  ]
]
  where
    kept :
        (b : Bool)
        → HasEnded later (
            if b
            then none
            else some (record (written user now ttl) {
              dropped_at = some (now + ttl_seconds ttl * nanos);
            }))
    kept true = tt
    kept false = ended

-- After its end a session lets nobody in, whatever command of Redis failed when it was made or fails
-- when it is looked up, where its id was new.
pub get_session-ended :
    (a b : Answers) (id : String) (user : ℤ) (ttl now later : ℕ) (st : Sessions)
    → st id ≡ none
    → ltb ((now + ttl) / nanos) (later / nanos) ≡ true
    → Refuses (get_session b id later (create_session a id user ttl now st).1).0
get_session-ended a b id user ttl now later st new ended =
    get_session-HasEnded b id later _ (create_session-HasEnded a id user ttl now later st new ended)
