-- ===== src/DomainCheck.antt =====
-- internal/domaincheck/checker.go and internal/service/domain_service.go: whether a sending domain
-- is ready. The resolver (package net) is a parameter.
pub mod Laws
use Prim.Native.String
use Prim.Native.String.{◌++◌ as ◌+s◌}
use maild.Base.{
  ℕ, Bool, false, ◌&&◌, none, some, List, ◌∷◌, String, str_eq, starts_with, if◌then◌else◌, any,
}
use maild.Text.{trim_space, to_lower, normalize, contains}
use maild.Store.Defs.{other, Result, ok, err}
use maild.Store.Recipients.{upsert_domain_verification}
use maild.World.{Act, pure, ◌>>=◌, ◌>>◌, exec}
use maild.Service.Defs.{lift}

-- the answer of LookupTXT: records, the error "not found", or another error
pub data Answer : Type 0 where
  records : List String → Answer
  not_found : Answer
  failure : String → Answer

abbrev pub Resolver : Type 0
Resolver = String → Answer

pub record Readiness : Type 0 where
  pub domain : String
  pub dkim_selector : String
  pub spf_valid : Bool
  pub dkim_valid : Bool
  pub dmarc_valid : Bool
  pub ready : Bool

-- one lookup: whether some record passes; a name that is not found has none
unfoldable pub find_record : (String → Bool) → Answer → Result Bool
find_record passes (records txt) = ok (any passes txt)
find_record passes not_found = ok false
find_record passes (failure text) = err (other text)

abbrev pub is_spf : String → Bool
is_spf v = starts_with (normalize v) "v=spf1"

abbrev pub is_dkim : String → Bool
is_dkim v = contains (to_lower v) "v=dkim1"

abbrev pub is_dmarc : String → Bool
is_dmarc v = starts_with (normalize v) "v=dmarc1"

abbrev pub then_check : {A : Type 0} → Result Bool → (Bool → Result A) → Result A
then_check (ok found) f = f found
then_check (err e) f = err e

-- Checker.Check
unfoldable pub check_domain : Resolver → String → String → Result Readiness
unfolding find_record
check_domain resolver domain dkim_selector =
    let selector = if str_eq dkim_selector "" then "default" else dkim_selector in
    let name = trim_space (to_lower domain) in
    then_check (find_record is_spf (resolver name)) (λ spf.
      then_check (find_record is_dkim (resolver (selector +s "._domainkey." +s name))) (λ dkim.
        then_check (find_record is_dmarc (resolver ("_dmarc." +s name))) (λ dmarc. ok (record {
          domain = name;
          dkim_selector = selector;
          spf_valid = spf;
          dkim_valid = dkim;
          dmarc_valid = dmarc;
          ready = spf && dkim && dmarc;
        }))))

-- InspectReadiness
unfoldable pub inspect_readiness : Resolver → String → String → Result Readiness
unfolding check_domain
inspect_readiness resolver domain dkim_selector =
    check_domain resolver (trim_space domain) (trim_space dkim_selector)

-- CheckReadiness
unfoldable pub check_readiness : Resolver → ℕ → String → String → Act Readiness
check_readiness resolver ws domain dkim_selector = do
  result ← lift (inspect_readiness resolver domain dkim_selector)
  exec (λ now db. (ok tt, upsert_domain_verification ws result.domain result.ready now db))
  pure result
