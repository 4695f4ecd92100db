-- ===== src/Text.antt =====
-- What the source uses of Go's package `strings`, on native texts: TrimSpace, ToLower, EqualFold,
-- Contains, HasPrefix, LastIndex, Split and Join. TrimSpace knows every character of
-- unicode.IsSpace; ToLower maps the 26 ASCII letters and leaves every other character as it is.
pub mod Laws
pub mod Plain
use Prim.Native.Char.{Char, code}
use Prim.Native.String
use Prim.Native.String.{len, find, char_at}
use maild.Base.{
  ℕ, zero, suc, ◌+◌, ◌-◌, Bool, false, ◌&&◌, ◌||◌, Option, none, some, List, [], ◌∷◌, String, leb,
  ◌==◌, str_eq, if◌then◌else◌,
}

-- unicode.IsSpace
unfoldable pub is_space : Char → Bool
is_space c =
    let n = code c in
    (leb 9 n && leb n 13)
    || n == 32
    || n == 133
    || n == 160
    || n == 5760
    || (leb 8192 n && leb n 8202)
    || n == 8232
    || n == 8233
    || n == 8239
    || n == 8287
    || n == 12288

-- unicode.ToLower on the ASCII letters
unfoldable pub lower_char : Char → Char
lower_char c =
    if leb 65 (code c) && leb (code c) 90
    then char_at "abcdefghijklmnopqrstuvwxyz" (code c - 65)
    else c

-- strings.ToLower
unfoldable pub to_lower : String → String
to_lower String.[] = String.[]
to_lower (String.◌∷◌ c s) = String.◌∷◌ (lower_char c) (to_lower s)

unfoldable pub trim_left : String → String
trim_left String.[] = String.[]
trim_left (String.◌∷◌ c s) = let rest = trim_left s in if is_space c then rest else String.◌∷◌ c s

-- the character in front, unless it and all that follows is space
abbrev pub put_right : Bool → Char → String → String
put_right space c String.[] = if space then String.[] else String.◌∷◌ c String.[]
put_right space c (String.◌∷◌ d s) = String.◌∷◌ c (String.◌∷◌ d s)

unfoldable pub trim_right : String → String
trim_right String.[] = String.[]
trim_right (String.◌∷◌ c s) = put_right (is_space c) c (trim_right s)

-- strings.TrimSpace
unfoldable pub trim_space : String → String
trim_space s = trim_right (trim_left s)

-- strings.ToLower(strings.TrimSpace(s))
abbrev pub normalize : String → String
normalize s = to_lower (trim_space s)

-- strings.TrimSpace(s) == ""
abbrev pub is_blank : String → Bool
is_blank s = str_eq (trim_space s) ""

-- strings.EqualFold, on the ASCII letters
abbrev pub equal_fold : String → String → Bool
equal_fold s t = str_eq (to_lower s) (to_lower t)

-- strings.Contains
abbrev pub contains : String → String → Bool
contains s t = leb (find s t) (len s)

-- what follows the last '@', if there is one: `email[at+1:]` with `at` the strings.LastIndex
unfoldable pub after_last_at : String → Option String
after_last_at String.[] = none
after_last_at (String.◌∷◌ c s) = elim (after_last_at s) [
  | some t ↦ some t
  | none ↦ if code c == b'@' then some s else none
]

-- strings.Split at one character
abbrev pub put_front : Char → List String → List String
put_front c [] = String.◌∷◌ c String.[] ∷ []
put_front c (p ∷ ps) = String.◌∷◌ c p ∷ ps

unfoldable pub split : ℕ → String → List String
split sep String.[] = String.[] ∷ []
split sep (String.◌∷◌ c s) =
    let rest = split sep s in if code c == sep then String.[] ∷ rest else put_front c rest

-- `s[n:]`
unfoldable pub drop : ℕ → String → String
drop zero s = s
drop (suc n) String.[] = String.[]
drop (suc n) (String.◌∷◌ c s) = drop n s

-- strings.Join
unfoldable pub join : String → List String → String
join sep [] = ""
join sep (p ∷ []) = p
join sep (p ∷ q ∷ ps) = String.◌++◌ p (String.◌++◌ sep (join sep (q ∷ ps)))

-- membership in a set of texts
unfoldable pub mem_text : String → List String → Bool
mem_text d [] = false
mem_text d (e ∷ es) = str_eq e d || mem_text d es
