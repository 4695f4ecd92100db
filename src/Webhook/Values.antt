-- ===== src/Webhook/Values.antt =====
-- internal/api/webhook_event_parser.go: reading values of a decoded document. `nil` is `null`.
use maild.Base.{Option, none, some, List, [], ◌∷◌, String, str_eq, if◌then◌else◌}
use maild.Base.Int.{ℤ, pos}
use maild.Text.{trim_space}
use maild.Webhook.Json.{Value, null, num, str, arr, obj, Items, no_items, item, Fields, lookup}

abbrev pub or_value : Option Value → Value → Value
or_value none later = later
or_value (some v) later = v

-- firstAny
unfoldable pub first_any : Fields → List String → Value
first_any fs [] = null
first_any fs (key ∷ keys) = or_value (lookup key fs) (first_any fs keys)

abbrev pub or_zero : Option ℤ → ℤ
or_zero none = pos 0
or_zero (some n) = n

-- int64FromAny; the parameter is strconv.ParseInt(…, 10, 64), which json.Number.Int64 calls
unfoldable pub int64_from_any : (String → Option ℤ) → Value → ℤ
int64_from_any parse_int (num text) = or_zero (parse_int text)
int64_from_any parse_int (str text) = or_zero (parse_int (trim_space text))
int64_from_any parse_int _ = pos 0

-- stringFromAny
unfoldable pub string_from_any : Value → String
string_from_any (str text) = text
string_from_any (num text) = text
string_from_any _ = ""

-- strings.TrimSpace(stringFromAny(firstAny(obj, keys…)))
abbrev pub text_at : Fields → List String → String
text_at fs keys = trim_space (string_from_any (first_any fs keys))

-- mapFromAny
unfoldable pub map_from_any : Value → Option Fields
map_from_any (obj fs) = some fs
map_from_any _ = none

-- sliceFromAny
unfoldable pub slice_from_any : Value → Option Items
slice_from_any (arr vs) = some vs
slice_from_any _ = none

-- `obj[key]`, nil where the key is missing
abbrev pub at_key : String → Fields → Value
at_key key fs = or_value (lookup key fs) null

abbrev pub map_at : String → Fields → Option Fields
map_at key fs = map_from_any (at_key key fs)

abbrev pub or_next : String → String → String
or_next text next = if str_eq text "" then next else text

-- firstString
unfoldable pub first_string : Items → String
first_string no_items = ""
first_string (item (str text) vs) = or_next (trim_space text) (first_string vs)
first_string (item _ vs) = first_string vs
