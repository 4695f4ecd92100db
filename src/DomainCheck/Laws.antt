-- ===== src/DomainCheck/Laws.antt =====
-- When a domain is ready.
use Prim.Native.String.{◌++◌ as ◌+s◌}
use mathlib.Core.Path.{subst}
use maild.Base.{◌≡◌, ◌↔◌, refl, sym, ◌∙◌, Bool, true, false, ◌&&◌, String, arith, str_eq, any}
use maild.Text.{trim_space, to_lower}
use maild.Store.Defs.{Result, ok, err}
use maild.DomainCheck.{
  Answer, records, not_found, failure, Resolver, Readiness, find_record, is_spf, is_dkim, is_dmarc,
  then_check, check_domain,
}

-- the answer has a record that passes
abbrev pub Publishes : (String → Bool) → Answer → Type 0
Publishes passes (records txt) = any passes txt ≡ true
Publishes passes not_found = ⊥
Publishes passes (failure text) = ⊥

published :
    (passes : String → Bool) (a : Answer) (found : Bool)
    → find_record passes a ≡ ok found
    → (found ≡ true) ↔ Publishes passes a
unfolding find_record
published passes (records txt) found h =
    let e : any passes txt ≡ found = cc in (λ t. e ∙ t, λ t. sym e ∙ t)
published passes not_found found h =
    let e : false ≡ found = cc in (λ t. absurd (cc (e, t)), λ t. absurd t)
published passes (failure text) found h = absurd cc

-- what three checks in a row went through
passed_three :
    (a b c : Result Bool) (f : Bool → Bool → Bool → Readiness) (r : Readiness)
    → then_check a (λ spf. then_check b (λ dkim. then_check c (λ dmarc. ok (f spf dkim dmarc))))
      ≡ ok r
    → (spf : Bool) × (dkim : Bool) × (dmarc : Bool) × (a ≡ ok spf)
      × (b ≡ ok dkim)
      × (c ≡ ok dmarc)
      × (f spf dkim dmarc ≡ r)
passed_three (ok x) (ok y) (ok z) f r h = (x, y, z, refl, refl, refl, cc)
passed_three (err e) b c f r h = absurd cc
passed_three (ok x) (err e) c f r h = absurd cc
passed_three (ok x) (ok y) (err e) f r h = absurd cc

all_three :
    {P Q R : Type 0} (x y z : Bool)
    → (x ≡ true) ↔ P
    → (y ≡ true) ↔ Q
    → (z ≡ true) ↔ R
    → ((x && y && z) ≡ true) ↔ (P × Q × R)
all_three x y z p q r = (
  λ h. (p.0 (ground (arith, h)), q.0 (ground (arith, h)), r.0 (ground (arith, h))),
  λ t. let a = p.1 t.0 in let b = q.1 t.1 in let c = r.1 t.2 in ground (arith, a, b, c),
)

-- the resolver has the three records of a domain: for the lower-cased and trimmed name an SPF
-- record, under the selector a DKIM record, and under "_dmarc" a DMARC record
abbrev pub IsPublished : Resolver → String → String → Type 0
IsPublished resolver domain selector =
    let name = trim_space (to_lower domain) in
    Publishes is_spf (resolver name)
    × Publishes is_dkim (resolver (selector +s "._domainkey." +s name))
    × Publishes is_dmarc (resolver ("_dmarc." +s name))

-- What Check reports of a domain, where it does not fail, is that it is ready exactly if the
-- resolver has its SPF, DKIM and DMARC records, the DKIM record under the given selector.
pub check_domain-IsPublished :
    (resolver : Resolver) (domain selector : String) (r : Readiness)
    → check_domain resolver domain selector ≡ ok r
    → str_eq selector "" ≡ false
    → (r.ready ≡ true) ↔ IsPublished resolver domain selector
unfolding check_domain
check_domain-IsPublished resolver domain selector r h n =
    let (spf, dkim, dmarc, a, b, c, e) =
      passed_three (find_record is_spf (resolver (trim_space (to_lower domain))))
        (find_record is_dkim
          (resolver (selector +s "._domainkey." +s trim_space (to_lower domain))))
        (find_record is_dmarc (resolver ("_dmarc." +s trim_space (to_lower domain))))
        (λ spf dkim dmarc. record {
          domain = trim_space (to_lower domain);
          dkim_selector = selector;
          spf_valid = spf;
          dkim_valid = dkim;
          dmarc_valid = dmarc;
          ready = spf && dkim && dmarc;
        })
        r (rw n at h) in
    subst (λ (q : Readiness). (q.ready ≡ true) ↔ IsPublished resolver domain selector) e
      (all_three spf dkim dmarc (published is_spf _ spf a) (published is_dkim _ dkim b)
        (published is_dmarc _ dmarc c))
