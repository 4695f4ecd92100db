-- ===== src/Webhook/Signed.antt =====
-- Which requests the verifier of internal/webhooksig/verifier.go accepts.

use Prim.Native.String.{◌++◌ as ◌+s◌}
use maild.Base.{
  ℕ, ◌+◌, ◌-◌, ◌^◌, ◌≤◌, ◌<◌, ◌≡◌, ◌≢◌, ◌↔◌, refl, ap, false, ◌||◌, Option, none, some, String,
  str_eq, eq_iff, starts_with, arith, Bool-cases, inl, inr,
}
use maild.Base.Int.{ℤ, pos_part, neg_part}
use maild.Text.{trim_space, is_space}
use maild.Text.Plain.{IsPlain, IsPlain-append, drop_three, trim_space-IsPlain, split-IsPlain}
use text.Mathlib.TextPositions.{starts_with-append}
use maild.Webhook.{
  strip_version, Library, Verifier, accepted, sign, Parsed, signature, unreadable, parse_signature,
  decode_first, unix, later_by_more, compare_signature, check_time, check_signature,
  check_timestamp, verify,
}

-- the two times are at most `limit` nanoseconds apart
abbrev pub IsNear : ℕ → ℤ → ℤ → Type 0
IsNear limit t u =
    (pos_part t + neg_part u ≤ limit + (pos_part u + neg_part t))
    × (pos_part u + neg_part t ≤ limit + (pos_part t + neg_part u))

-- what makes a request genuine
pub record IsSigned (lib : Library) (v : Verifier) (timestamp_header signature_header body : String)
    (now : ℤ) : Type 0 where
  pub seconds : ℤ
  pub dated : trim_space timestamp_header ≢ ""
  pub read : lib.parse_int (trim_space timestamp_header) ≡ some seconds
  pub near : IsNear v.max_skew now (unix seconds)
  pub signed :
      parse_signature lib signature_header
      ≡ signature (sign lib v.secret (trim_space timestamp_header) body)

not_later :
    (limit : ℕ) (t u : ℤ)
    → limit < 2 ^ 63 - 1
    → (later_by_more limit t u ≡ false)
      ↔ (pos_part t + neg_part u ≤ limit + (pos_part u + neg_part t))
unfolding later_by_more
not_later limit t u h = ground arith

test-IsNear :
    (limit : ℕ) (t u : ℤ)
    → limit < 2 ^ 63 - 1
    → (later_by_more limit t u || later_by_more limit u t ≡ false) ↔ IsNear limit t u
test-IsNear limit t u h = ground (arith, not_later limit t u h, not_later limit u t h)

accepted_compare :
    (sig expected : String) → compare_signature sig expected ≡ accepted → sig ≡ expected
accepted_compare sig expected h = ground (arith, h, (eq_iff sig expected).0)

-- the last two tests, for a time and a signature that were read
check_time_iff :
    (lib : Library) (v : Verifier) (timestamp body : String) (now ts : ℤ) (sig : String)
    → v.max_skew < 2 ^ 63 - 1
    → (check_time lib v timestamp body now ts sig ≡ accepted)
      ↔ (IsNear v.max_skew now ts × (sig ≡ sign lib v.secret timestamp body))
check_time_iff lib v timestamp body now ts sig h =
    ground (arith, test-IsNear v.max_skew now ts h, eq_iff sig (sign lib v.secret timestamp body))

signature_of :
    (lib : Library) (v : Verifier) (timestamp body : String) (now ts : ℤ) (p : Parsed)
    → v.max_skew < 2 ^ 63 - 1
    → check_signature lib v timestamp body now ts p ≡ accepted
    → IsNear v.max_skew now ts × (p ≡ signature (sign lib v.secret timestamp body))
signature_of lib v timestamp body now ts (unreadable e) h k = absurd cc
signature_of lib v timestamp body now ts (signature sig) h k =
    let r = (check_time_iff lib v timestamp body now ts sig h).0 k in (r.0, ap signature r.1)

-- The verifier accepts a request exactly if its timestamp reads as a time at most the tolerance away
-- and the first digest of its signature header is the MAC of that timestamp and the body under the
-- secret, where the tolerance is less than the greatest duration.
pub verify-IsSigned :
    (lib : Library) (v : Verifier) (timestamp_header signature_header body : String) (now : ℤ)
    → v.max_skew < 2 ^ 63 - 1
    → (verify lib v timestamp_header signature_header body now ≡ accepted)
      ↔ IsSigned lib v timestamp_header signature_header body now
unfolding verify
verify-IsSigned lib v timestamp_header signature_header body now h = (forth, back)
  where
    of_time :
        str_eq (trim_space timestamp_header) "" ≡ false
        → (o : Option ℤ) → lib.parse_int (trim_space timestamp_header) ≡ o
        → check_timestamp lib v
            (trim_space timestamp_header)
            body
            now
            (parse_signature lib signature_header)
            o
          ≡ accepted
        → IsSigned lib v timestamp_header signature_header body now
    of_time d none e k = absurd cc
    of_time d (some s) e k =
        let r = signature_of lib v _ body now (unix s) _ h k in
        record {
          seconds = s;
          dated = λ q. absurd (cc (d, (eq_iff (trim_space timestamp_header) "").1 q));
          read = e;
          near = r.0;
          signed = r.1;
        }

    forth :
        verify lib v timestamp_header signature_header body now ≡ accepted
        → IsSigned lib v timestamp_header signature_header body now
    forth k = elim (Bool-cases (str_eq (trim_space timestamp_header) "")) [
      | inl e ↦ absurd (cc (rw e at k))
      | inr e ↦ of_time e (lib.parse_int (trim_space timestamp_header)) refl (rw e at k)
    ]

    back :
        IsSigned lib v timestamp_header signature_header body now
        → verify lib v timestamp_header signature_header body now ≡ accepted
    back s = elim (Bool-cases (str_eq (trim_space timestamp_header) "")) [
      | inl e ↦ absurd (s.dated ((eq_iff (trim_space timestamp_header) "").0 e))
      | inr e ↦
          rw (e, s.read, s.signed)
            ((check_time_iff lib v (trim_space timestamp_header) body now (unix s.seconds) _ h).1
              (s.near, refl))
    ]

IsPlain-header : (digest : String) → IsPlain b',' digest → IsPlain b',' ("v1=" +s digest)
unfolding is_space
IsPlain-header digest h =
    IsPlain-append b',' "v1=" digest (refl, refl, (refl, refl, (refl, refl, tt))) h

header_parts : (digest : String) → strip_version ("v1=" +s digest) ≡ digest
header_parts digest = rw (starts_with-append "v1=" digest) (drop_three _ _ _ digest)

not_blank : (digest : String) → str_eq ("v1=" +s digest) "" ≡ false
not_blank digest = elim (Bool-cases (str_eq ("v1=" +s digest) "")) [
  | inl e ↦ absurd (
      cc (
        ap (λ s. starts_with s "v1=") ((eq_iff ("v1=" +s digest) "").0 e),
        starts_with-append "v1=" digest,
      ))
  | inr e ↦ e
]

decode-header :
    (lib : Library) (digest sig : String)
    → IsPlain b',' digest
    → lib.decode_hex digest ≡ some sig
    → str_eq sig "" ≡ false
    → parse_signature lib ("v1=" +s digest) ≡ signature sig
unfolding parse_signature decode_first
decode-header lib digest sig h d n =
    let p = IsPlain-header digest h in
    rw
      (
        trim_space-IsPlain b',' _ p,
        split-IsPlain b',' _ p,
        trim_space-IsPlain b',' _ p,
        not_blank digest,
        header_parts digest,
        d,
        n,
      )
      refl

-- What a sender that knows the secret signs is accepted: a header "v1=" with the hexadecimal digest
-- of the timestamp and the body, the timestamp at most the tolerance away, where that is less than
-- the greatest duration.
pub verify-sign :
    (lib : Library) (v : Verifier) (timestamp digest body : String) (now seconds : ℤ)
    → v.max_skew < 2 ^ 63 - 1
    → trim_space timestamp ≢ ""
    → lib.parse_int (trim_space timestamp) ≡ some seconds
    → IsNear v.max_skew now (unix seconds)
    → IsPlain b',' digest
    → lib.decode_hex digest ≡ some (sign lib v.secret (trim_space timestamp) body)
    → str_eq (sign lib v.secret (trim_space timestamp) body) "" ≡ false
    → verify lib v timestamp ("v1=" +s digest) body now ≡ accepted
verify-sign lib v timestamp digest body now seconds h d r n p e m =
    (verify-IsSigned lib v timestamp ("v1=" +s digest) body now h).1 (record {
      seconds = seconds;
      dated = d;
      read = r;
      near = n;
      signed = decode-header lib digest _ p e m;
    })
