-- ===== src/Text/Plain.antt =====
-- Texts of which trimming and splitting leave everything: no space, and no separator.

use Prim.Native.Char.{Char, code}
use maild.Base.{ℕ, ◌≡◌, refl, false, [], ◌∷◌, String, ◌==◌}
use Prim.Native.String.{◌++◌ as ◌+s◌}
use text.Mathlib.TextLemmas.{nil-append, cons-append}
use maild.Text.{drop, is_space, trim_left, trim_right, trim_space, split, put_right}

-- no character is a space, or the separator
abbrev pub IsPlain : ℕ → String → Type 0
IsPlain sep String.[] = Unit
IsPlain sep (String.◌∷◌ c s) = (is_space c ≡ false) × ((code c == sep) ≡ false) × IsPlain sep s

trim_left-IsPlain : (sep : ℕ) (s : String) → IsPlain sep s → trim_left s ≡ s
unfolding trim_left
trim_left-IsPlain sep String.[] h = refl
trim_left-IsPlain sep (String.◌∷◌ c s) h = rw h.0 refl

put_right-false : (c : Char) (s : String) → put_right false c s ≡ String.◌∷◌ c s
put_right-false c String.[] = refl
put_right-false c (String.◌∷◌ d s) = refl

trim_right-IsPlain : (sep : ℕ) (s : String) → IsPlain sep s → trim_right s ≡ s
unfolding trim_right
trim_right-IsPlain sep String.[] h = refl
trim_right-IsPlain sep (String.◌∷◌ c s) h =
    rw (h.0, trim_right-IsPlain sep s h.2) (put_right-false c s)

pub trim_space-IsPlain : (sep : ℕ) (s : String) → IsPlain sep s → trim_space s ≡ s
unfolding trim_space
trim_space-IsPlain sep s h = rw (trim_left-IsPlain sep s h) (trim_right-IsPlain sep s h)

pub split-IsPlain : (sep : ℕ) (s : String) → IsPlain sep s → split sep s ≡ s ∷ []
unfolding split
split-IsPlain sep String.[] h = refl
split-IsPlain sep (String.◌∷◌ c s) h = rw (h.1, split-IsPlain sep s h.2) refl

pub IsPlain-append : (sep : ℕ) (s t : String) → IsPlain sep s → IsPlain sep t → IsPlain sep (s +s t)
IsPlain-append sep String.[] t h k = rw (nil-append t) k
IsPlain-append sep (String.◌∷◌ c s) t h k =
    rw (cons-append c s t) (h.0, h.1, IsPlain-append sep s t h.2 k)

pub drop_three :
    (a b c : Char) (s : String)
    → drop 3 (String.◌∷◌ a (String.◌∷◌ b (String.◌∷◌ c String.[])) +s s) ≡ s
unfolding drop
drop_three a b c s =
    rw
      (
        cons-append a (String.◌∷◌ b (String.◌∷◌ c String.[])) s,
        cons-append b (String.◌∷◌ c String.[]) s,
        cons-append c String.[] s,
      )
      (nil-append s)
