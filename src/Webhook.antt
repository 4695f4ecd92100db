-- ===== src/Webhook.antt =====
-- internal/webhooksig/verifier.go: who may report events. A text stands for its bytes; what the
-- standard library does (crypto/hmac, encoding/hex, strconv.ParseInt) is a `Library`.
pub mod Signed
pub mod Json
pub mod Values
pub mod Classify
pub mod Parse
pub mod Types
pub mod Laws
pub mod ByItem
pub mod Uses
use Prim.Native.String
use Prim.Native.String.{◌++◌ as ◌+s◌}
use maild.Base.{
  ℕ, ◌+◌, ◌-◌, ◌*◌, ◌^◌, Bool, ◌||◌, Option, none, some, List, [], ◌∷◌, String, ltb, str_eq,
  starts_with, if◌then◌else◌,
}
use maild.Base.Int.{ℤ, pos, negsuc, pos_part, neg_part}
use maild.Text.{trim_space, split, drop}

pub record Library : Type 0 where
  pub hmac : String → String → String  -- the MAC of a message under a key
  pub decode_hex : String → Option String
  pub parse_int : String → Option ℤ

pub data VerifyError : Type 0 where
  missing_timestamp missing_signature invalid_timestamp : VerifyError
  outside_tolerance invalid_format mismatch : VerifyError

pub data Verdict : Type 0 where
  accepted : Verdict
  refused : VerifyError → Verdict

pub record Verifier : Type 0 where
  pub secret : String
  pub max_skew : ℕ

-- sign
unfoldable pub sign : Library → String → String → String → String
sign lib secret timestamp body = lib.hmac secret (timestamp +s "." +s body)

abbrev pub strip_version : String → String
strip_version token = if starts_with token "v1=" then drop 3 token else token

abbrev pub not_empty : Option String → Option String
not_empty none = none
not_empty (some decoded) = if str_eq decoded "" then none else some decoded

-- one part of the signature header
abbrev pub decode_part : Library → String → Option String
decode_part lib part =
    if str_eq (trim_space part) ""
    then none
    else not_empty (lib.decode_hex (strip_version (trim_space part)))

abbrev pub or_later : Option String → Option String → Option String
or_later none later = later
or_later (some decoded) later = some decoded

-- the loop of parseSignature
unfoldable pub decode_first : Library → List String → Option String
decode_first lib [] = none
decode_first lib (part ∷ parts) = or_later (decode_part lib part) (decode_first lib parts)

pub data Parsed : Type 0 where
  signature : String → Parsed
  unreadable : VerifyError → Parsed

abbrev pub decoded_or_error : Option String → Parsed
decoded_or_error none = unreadable invalid_format
decoded_or_error (some decoded) = signature decoded

-- parseSignature
unfoldable pub parse_signature : Library → String → Parsed
parse_signature lib header =
    if str_eq (trim_space header) ""
    then unreadable missing_signature
    else decoded_or_error (decode_first lib (split b',' (trim_space header)))

-- the seconds of a timestamp as nanoseconds
abbrev pub unix : ℤ → ℤ
unix (pos n) = pos (n * 1000000000)
unix (negsuc n) = negsuc (n * 1000000000 + 999999999)

-- `t.Sub(u) > limit`: a difference that is not a time.Duration is the greatest one
unfoldable pub later_by_more : ℕ → ℤ → ℤ → Bool
later_by_more limit t u =
    let d = (pos_part t + neg_part u) - (pos_part u + neg_part t) in
    ltb limit (if ltb (2 ^ 63 - 1) d then 2 ^ 63 - 1 else d)

abbrev pub compare_signature : String → String → Verdict
compare_signature sig expected = if str_eq sig expected then accepted else refused mismatch

abbrev pub check_time : Library → Verifier → String → String → ℤ → ℤ → String → Verdict
check_time lib v timestamp body now ts sig =
    if later_by_more v.max_skew now ts || later_by_more v.max_skew ts now
    then refused outside_tolerance
    else compare_signature sig (sign lib v.secret timestamp body)

abbrev pub check_signature : Library → Verifier → String → String → ℤ → ℤ → Parsed → Verdict
check_signature lib v timestamp body now ts (unreadable e) = refused e
check_signature lib v timestamp body now ts (signature sig) =
    check_time lib v timestamp body now ts sig

abbrev pub check_timestamp : Library → Verifier → String → String → ℤ → Parsed → Option ℤ → Verdict
check_timestamp lib v timestamp body now sig none = refused invalid_timestamp
check_timestamp lib v timestamp body now sig (some seconds) =
    check_signature lib v timestamp body now (unix seconds) sig

-- Verify
unfoldable pub verify : Library → Verifier → String → String → String → ℤ → Verdict
verify lib v timestamp_header signature_header body now =
    if str_eq (trim_space timestamp_header) ""
    then refused missing_timestamp
    else check_timestamp lib v (trim_space timestamp_header) body now
        (parse_signature lib signature_header) (lib.parse_int (trim_space timestamp_header))
