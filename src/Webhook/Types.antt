-- ===== src/Webhook/Types.antt =====
-- The types of event that the parser gives, and the evidence behind a classified bounce.

use maild.Base.{
  ◌≡◌, ◌⊎◌, inl, inr, ◌∙◌, refl, ap, Bool, true, false, ◌||◌, Option, none, some, List, [], ◌∷◌,
  String, str_eq, eq_iff, if◌then◌else◌, Bool-cases,
}
use maild.Base.Int.{ℤ}
use maild.Text.{normalize, trim_space, equal_fold, mem_text, to_lower}
use maild.Webhook.Json.{Fields}
use maild.Webhook.Values.{map_at, text_at, first_any, int64_from_any}
use maild.Webhook.Classify.{
  canonical_type, normalize_event_type, or_type, or_class, bounce_evidence, classify_enhanced,
  classify_provider_bounce, class_of_bounce, class_of_data, class_of_postmark,
}
use maild.Webhook.Parse.{event_type_of, raw_type_of}

-- the type after the evidence was looked at is the type before, unless that left the bounce open
pub open_bounce :
    (parse_int : String → Option ℤ) (fs : Fields) (raw event_type class : String)
    → classify_provider_bounce parse_int fs raw event_type ≡ class
    → (event_type ≡ class)
      ⊎ ((event_type ≡ "bounce_unclassified") × (bounce_evidence parse_int fs raw ≡ some class))
unfolding classify_provider_bounce
open_bounce parse_int fs raw event_type class h =
    elim (Bool-cases (str_eq event_type "bounce_unclassified")) [
      | inl e ↦
          of_evidence (bounce_evidence parse_int fs raw) refl
            ((eq_iff event_type "bounce_unclassified").0 e) (rw e at h)
      | inr e ↦ inl (rw e at h)
    ]
  where
    of_evidence :
        (o : Option String)
        → bounce_evidence parse_int fs raw ≡ o
        → event_type ≡ "bounce_unclassified"
        → or_type event_type o ≡ class
        → (event_type ≡ class)
          ⊎ ((event_type ≡ "bounce_unclassified") × (bounce_evidence parse_int fs raw ≡ some class))
    of_evidence none q u k = inl k
    of_evidence (some found) q u k = inr (u, q ∙ ap some k)

-- the five canonical names
abbrev pub canonical_names : List String
canonical_names =
    "bounce_permanent" ∷ "bounce_temporary" ∷ "bounce_unclassified" ∷ "complaint" ∷ "unsubscribe"
    ∷ []

one_name :
    (p q r s t : Bool)
    → mem_text
        (if p
          then "bounce_permanent"
          else if q
          then "bounce_temporary"
          else if r
          then "bounce_unclassified"
          else if s
          then "complaint"
          else if t
          then "unsubscribe"
          else "")
        ("" ∷ canonical_names)
      ≡ true
unfolding mem_text
one_name true q r s t = refl
one_name false true r s t = refl
one_name false false true s t = refl
one_name false false false true t = refl
one_name false false false false true = refl
one_name false false false false false = refl

canonical_type-name :
    (event : String) → mem_text (canonical_type event) ("" ∷ canonical_names) ≡ true
unfolding canonical_type
canonical_type-name event = one_name _ _ _ _ _

-- the two classes that evidence gives
abbrev IsClass : Option String → Type 0
IsClass none = Unit
IsClass (some class) = (class ≡ "bounce_permanent") ⊎ (class ≡ "bounce_temporary")

or_class-IsClass : (a b : Option String) → IsClass a → IsClass b → IsClass (or_class a b)
or_class-IsClass none b p q = q
or_class-IsClass (some class) b p q = p

two_way :
    (p q : Bool)
    → IsClass (if p then some "bounce_permanent" else if q then some "bounce_temporary" else none)
two_way true q = inl refl
two_way false true = inr refl
two_way false false = tt

way_two :
    (p q : Bool)
    → IsClass (if p then some "bounce_temporary" else if q then some "bounce_permanent" else none)
way_two true q = inr refl
way_two false true = inl refl
way_two false false = tt

if_IsClass : (b : Bool) (o : Option String) → IsClass o → IsClass (if b then o else none)
if_IsClass true o h = h
if_IsClass false o h = tt

class_of_bounce-IsClass : (o : Option Fields) → IsClass (class_of_bounce o)
unfolding class_of_bounce
class_of_bounce-IsClass none = tt
class_of_bounce-IsClass (some fs) = two_way _ _

class_of_data-IsClass : (o : Option Fields) → IsClass (class_of_data o)
unfolding class_of_data
class_of_data-IsClass none = tt
class_of_data-IsClass (some fs) = two_way _ _

class_of_postmark-IsClass :
    (raw kind : String) (code : ℤ) → IsClass (class_of_postmark raw kind code)
unfolding class_of_postmark
class_of_postmark-IsClass raw kind code =
    if_IsClass (equal_fold (trim_space raw) "bounce" || equal_fold (trim_space raw) "failed") _
      (two_way _ _)

bounce_evidence-IsClass :
    (parse_int : String → Option ℤ) (fs : Fields) (raw : String)
    → IsClass (bounce_evidence parse_int fs raw)
unfolding bounce_evidence classify_enhanced
bounce_evidence-IsClass parse_int fs raw =
    or_class-IsClass _ _ (class_of_bounce-IsClass (map_at "bounce" fs)) (
      or_class-IsClass _ _ (class_of_data-IsClass (map_at "event-data" fs)) (
        or_class-IsClass _ _ (way_two _ _) (
          class_of_postmark-IsClass raw (to_lower (text_at fs ("Type" ∷ "BounceType" ∷ [])))
            (int64_from_any parse_int (first_any fs ("TypeCode" ∷ "type_code" ∷ []))))))

IsClass-name :
    (event_type : String) (o : Option String)
    → IsClass o
    → mem_text event_type ("" ∷ canonical_names) ≡ true
    → mem_text (or_type event_type o) ("" ∷ canonical_names) ≡ true
unfolding mem_text
IsClass-name event_type none h k = k
IsClass-name event_type (some class) (inl e) k = rw e refl
IsClass-name event_type (some class) (inr e) k = rw e refl

classified-name :
    (parse_int : String → Option ℤ) (fs : Fields) (raw event_type : String)
    → mem_text event_type ("" ∷ canonical_names) ≡ true
    → mem_text (classify_provider_bounce parse_int fs raw event_type) ("" ∷ canonical_names) ≡ true
unfolding classify_provider_bounce
classified-name parse_int fs raw event_type h =
    elim (Bool-cases (str_eq event_type "bounce_unclassified")) [
      | inl e ↦ rw e (IsClass-name event_type _ (bounce_evidence-IsClass parse_int fs raw) h)
      | inr e ↦ rw e h
    ]

-- the type of every event is one of the five names, or empty
pub event_type_of-name :
    (parse_int : String → Option ℤ) (fs : Fields)
    → mem_text (event_type_of parse_int fs) ("" ∷ canonical_names) ≡ true
unfolding event_type_of normalize_event_type
event_type_of-name parse_int fs =
    classified-name parse_int fs (raw_type_of fs) _
      (canonical_type-name (normalize (raw_type_of fs)))

-- the type is a complaint only by name
pub event_type_of-complaint :
    (parse_int : String → Option ℤ) (fs : Fields)
    → event_type_of parse_int fs ≡ "complaint"
    → normalize_event_type (raw_type_of fs) ≡ "complaint"
unfolding event_type_of
event_type_of-complaint parse_int fs h = by_name (
    open_bounce parse_int fs (raw_type_of fs) (normalize_event_type (raw_type_of fs)) "complaint" h)
  where
    no_class : (o : Option String) → IsClass o → o ≡ some "complaint" → ⊥
    no_class none c q = absurd cc
    no_class (some class) (inl e) q = absurd (cc (e, q))
    no_class (some class) (inr e) q = absurd (cc (e, q))

    by_name :
        (normalize_event_type (raw_type_of fs) ≡ "complaint")
          ⊎ ((normalize_event_type (raw_type_of fs) ≡ "bounce_unclassified")
              × (bounce_evidence parse_int fs (raw_type_of fs) ≡ some "complaint"))
        → normalize_event_type (raw_type_of fs) ≡ "complaint"
    by_name (inl e) = e
    by_name (inr (_, e)) =
        absurd (no_class _ (bounce_evidence-IsClass parse_int fs (raw_type_of fs)) e)

-- the type is a permanent bounce only on evidence
pub event_type_of-permanent :
    (parse_int : String → Option ℤ) (fs : Fields)
    → event_type_of parse_int fs ≡ "bounce_permanent"
    → (normalize_event_type (raw_type_of fs) ≡ "bounce_permanent")
      ⊎ ((normalize_event_type (raw_type_of fs) ≡ "bounce_unclassified")
          × (bounce_evidence parse_int fs (raw_type_of fs) ≡ some "bounce_permanent"))
unfolding event_type_of
event_type_of-permanent parse_int fs h =
    open_bounce parse_int fs (raw_type_of fs) (normalize_event_type (raw_type_of fs))
      "bounce_permanent" h
