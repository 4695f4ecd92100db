-- ===== src/Text/Laws.antt =====
-- Laws of the text functions: trimming and lower-casing are idempotent and commute.
use Prim.Native.Char.{Char, code}
use Prim.Native.String.{char_at}
use maild.Base.{
  all_below, all_below_sound, ℕ, ◌+◌, ◌-◌, ◌<◌, ◌≤◌, ◌≡◌, refl, Bool, true, false, String, arith,
  ◌==◌, Bool-cases, inl, inr, ◌⊎◌, ==_iff,
}
use maild.Text.{
  is_space, lower_char, to_lower, trim_left, put_right, trim_right, trim_space, normalize,
}

abbrev letters : String
letters = "abcdefghijklmnopqrstuvwxyz"

letters_table : all_below 26 (λ k. code (char_at letters k) == k + 97) ≡ true
unfolding all_below
letters_table = refl

code-letters : (k : ℕ) → k < 26 → code (char_at letters k) ≡ k + 97
code-letters k h = (==_iff _ _).0 (all_below_sound 26 _ k letters_table h)

-- A lower-cased character is no capital, and is a space exactly if the character was.
lower_code :
    (c : Char)
    → (code (lower_char c) ≡ code c) × ((code c < 65) ⊎ (90 < code c))
      ⊎ (code (lower_char c) ≡ code c + 32) × (65 ≤ code c) × (code c ≤ 90)
unfolding lower_char
lower_code c = ground (arith, code-letters (code c - 65))

lower_char_fixed : (c : Char) → ((code c < 65) ⊎ (90 < code c)) → lower_char c ≡ c
unfolding lower_char
lower_char_fixed c h = ground arith

pub lower_char_idem : (c : Char) → lower_char (lower_char c) ≡ lower_char c
lower_char_idem c = lower_char_fixed (lower_char c) (ground (arith, lower_code c))

pub is_space-lower_char : (c : Char) → is_space (lower_char c) ≡ is_space c
unfolding is_space
is_space-lower_char c = ground (arith, lower_code c)

pub to_lower_idem : (s : String) → to_lower (to_lower s) ≡ to_lower s
unfolding to_lower
to_lower_idem String.[] = refl
to_lower_idem (String.◌∷◌ c s) = cc (lower_char_idem c, to_lower_idem s)

pub trim_left-to_lower : (s : String) → trim_left (to_lower s) ≡ to_lower (trim_left s)
unfolding trim_left to_lower
trim_left-to_lower String.[] = refl
trim_left-to_lower (String.◌∷◌ c s) = ground (arith, is_space-lower_char c, trim_left-to_lower s)

put_right-lower :
    (b : Bool) (c : Char) (s : String)
    → put_right b (lower_char c) (to_lower s) ≡ to_lower (put_right b c s)
unfolding to_lower
put_right-lower true c String.[] = refl
put_right-lower false c String.[] = refl
put_right-lower b c (String.◌∷◌ d s) = refl

pub trim_right-to_lower : (s : String) → trim_right (to_lower s) ≡ to_lower (trim_right s)
unfolding trim_right to_lower
trim_right-to_lower String.[] = refl
trim_right-to_lower (String.◌∷◌ c s) =
    rw (is_space-lower_char c, trim_right-to_lower s)
      (put_right-lower (is_space c) c (trim_right s))

pub trim_space-to_lower : (s : String) → trim_space (to_lower s) ≡ to_lower (trim_space s)
unfolding trim_space
trim_space-to_lower s = rw (trim_left-to_lower s) (trim_right-to_lower (trim_left s))

trim_left_idem : (s : String) → trim_left (trim_left s) ≡ trim_left s
unfolding trim_left
trim_left_idem String.[] = refl
trim_left_idem (String.◌∷◌ c s) = ground (arith, trim_left_idem s)

trim_right-put_right :
    (c : Char) (s : String)
    → trim_right s ≡ s
    → trim_right (put_right (is_space c) c s) ≡ put_right (is_space c) c s
unfolding trim_right
trim_right-put_right c String.[] h = elim (Bool-cases (is_space c)) [
  | inl e ↦ rw e
  | inr e ↦ rw e (rw e)
]
trim_right-put_right c (String.◌∷◌ d s) h = rw h

pub trim_right_idem : (s : String) → trim_right (trim_right s) ≡ trim_right s
unfolding trim_right
trim_right_idem String.[] = refl
trim_right_idem (String.◌∷◌ c s) = trim_right-put_right c (trim_right s) (trim_right_idem s)

-- a text that begins with no space keeps that when its right end is trimmed
abbrev Tight : String → Type 0
Tight s = trim_left s ≡ s

Tight-put_right : (c : Char) (s : String) → is_space c ≡ false → Tight (put_right (is_space c) c s)
unfolding trim_left
Tight-put_right c String.[] e = rw e (rw e)
Tight-put_right c (String.◌∷◌ d s) e = rw e

Tight-trim_right : (s : String) → Tight (trim_right (trim_left s))
unfolding trim_left trim_right
Tight-trim_right String.[] = refl
Tight-trim_right (String.◌∷◌ c s) = elim (Bool-cases (is_space c)) [
  | inl e ↦ rw e (Tight-trim_right s)
  | inr e ↦ rw e (Tight-put_right c (trim_right s) e)
]

pub trim_space_idem : (s : String) → trim_space (trim_space s) ≡ trim_space s
unfolding trim_space
trim_space_idem s = rw (Tight-trim_right s) (trim_right_idem (trim_left s))

pub normalize_idem : (s : String) → normalize (normalize s) ≡ normalize s
normalize_idem s =
    rw (trim_space-to_lower (trim_space s)) (rw (trim_space_idem s) (to_lower_idem (trim_space s)))
