-- ===== src/Service/Helpers/Domains.antt =====
-- The sets that the service makes of lists: ids and domains.
use maild.Base.{
  ℕ, ◌≡◌, refl, ap, ◌∙◌, Bool, true, false, ◌&&◌, ◌||◌, not, List, [], ◌∷◌, String, arith, ◌==◌,
  ==_refl, str_eq, eq_iff, if◌then◌else◌, any,
}
use maild.Base.Int.{ℤ, pos, negsuc}
use maild.Text.{normalize, mem_text}
use maild.Service.Helpers.{
  seen_id, positive_ids_from, normalize_positive_ids, is_blocked_domain, domains_from,
  normalize_domains,
}

-- whether the positive number `i` is in a list
abbrev pub is_pos : ℕ → ℤ → Bool
is_pos i (pos n) = n == i
is_pos i (negsuc n) = false

-- no number stands in the list twice
abbrev pub distinct : List ℕ → Bool
distinct [] = true
distinct (i ∷ is) = not (seen_id i is) && distinct is

-- what is in the result: the positive ids that were not seen before
positive_ids_from_members :
    (i : ℕ) (seen : List ℕ) (ids : List ℤ)
    → seen_id i (positive_ids_from seen ids)
      ≡ (not (i == 0) && any (is_pos i) ids && not (seen_id i seen))
unfolding seen_id positive_ids_from any
positive_ids_from_members i seen [] = ground arith
positive_ids_from_members i seen (negsuc n ∷ ids) = positive_ids_from_members i seen ids
positive_ids_from_members i seen (pos n ∷ ids) =
    ground (arith, positive_ids_from_members i seen ids, positive_ids_from_members i (n ∷ seen) ids)

positive_ids_from-distinct :
    (seen : List ℕ) (ids : List ℤ) → distinct (positive_ids_from seen ids) ≡ true
unfolding seen_id positive_ids_from
positive_ids_from-distinct seen [] = refl
positive_ids_from-distinct seen (negsuc n ∷ ids) = positive_ids_from-distinct seen ids
positive_ids_from-distinct seen (pos n ∷ ids) = ground (
  arith,
  ==_refl n,
  positive_ids_from-distinct seen ids,
  positive_ids_from-distinct (n ∷ seen) ids,
  positive_ids_from_members n (n ∷ seen) ids,
)

-- normalizePositiveIDs gives each id once, and exactly the positive ids of its argument.
pub normalize_positive_ids_lem :
    (ids : List ℤ)
    → (distinct (normalize_positive_ids ids) ≡ true)
      × ((i : ℕ) → seen_id i (normalize_positive_ids ids) ≡ (not (i == 0) && any (is_pos i) ids))
unfolding normalize_positive_ids seen_id
normalize_positive_ids_lem ids =
    (positive_ids_from-distinct [] ids, λ i. positive_ids_from_members i [] ids ∙ ground arith)

-- one round, with the tests as Booleans: `same` is whether the entry is the domain looked for
one_round :
    (same empty_e seen_e empty_d seen_d later : Bool)
    → (same ≡ true → empty_e ≡ empty_d)
    → (same ≡ true → seen_e ≡ seen_d)
    → (if empty_e || seen_e
        then not empty_d && later && not seen_d
        else same || (not empty_d && later && not (same || seen_d)))
      ≡ (not empty_d && (same || later) && not seen_d)
one_round true empty_e seen_e empty_d seen_d later h k = ground (arith, h refl, k refl)
one_round false empty_e seen_e empty_d seen_d later h k = ground arith

mem_text-if :
    (b : Bool) (d : String) (xs ys : List String)
    → mem_text d (if b then xs else ys) ≡ (if b then mem_text d xs else mem_text d ys)
mem_text-if true d xs ys = refl
mem_text-if false d xs ys = refl

domains_from_members :
    (d : String) (seen ds : List String)
    → mem_text d (domains_from seen ds)
      ≡ (not (str_eq d "") && any (λ e. str_eq (normalize e) d) ds && not (mem_text d seen))
unfolding mem_text domains_from any
domains_from_members d seen [] = ground arith
domains_from_members d seen (e ∷ ds) =
    mem_text-if (str_eq (normalize e) "" || mem_text (normalize e) seen) d _ _
    ∙ rw (domains_from_members d seen ds, domains_from_members d (normalize e ∷ seen) ds)
        (one_round (str_eq (normalize e) d) _ _ _ _ _
          (λ h. ap (λ x. str_eq x "") ((eq_iff _ _).0 h))
          (λ h. ap (λ x. mem_text x seen) ((eq_iff _ _).0 h)))

blocked_by_normal :
    (ds : List String) (domain : String)
    → is_blocked_domain ds domain ≡ any (λ e. str_eq (normalize e) (normalize domain)) ds
unfolding is_blocked_domain any
blocked_by_normal [] domain = refl
blocked_by_normal (d ∷ ds) domain =
    ap (λ b. str_eq (normalize d) (normalize domain) || b) (blocked_by_normal ds domain)

-- A domain is in the list that normalizeDomains makes exactly if it is not
-- empty and some entry of the argument has it as its normal form.
pub mem_text-normalize_domains :
    (ds : List String) (d : String)
    → mem_text d (normalize_domains ds)
      ≡ (not (str_eq d "") && any (λ e. str_eq (normalize e) d) ds)
unfolding normalize_domains mem_text
mem_text-normalize_domains ds d = domains_from_members d [] ds ∙ ground arith

-- Whether isBlockedDomain blocks a domain that is not blank is whether its normal form is in the
-- list that normalizeDomains makes of the blocked ones.
pub is_blocked_domain-normalize_domains :
    (ds : List String) (domain : String)
    → str_eq (normalize domain) "" ≡ false
    → is_blocked_domain ds domain ≡ mem_text (normalize domain) (normalize_domains ds)
is_blocked_domain-normalize_domains ds domain h =
    blocked_by_normal ds domain ∙ ground (arith, mem_text-normalize_domains ds (normalize domain))
