-- ===== src/Decimal.antt =====
-- strconv.Itoa and strconv.FormatInt(_, 10) on numbers that are not negative.

use Prim.Native.String.{char_at}
use maild.Base.{ℕ, zero, suc, ◌/◌, ◌%◌, String, ltb, if◌then◌else◌}

-- the digits of `n` in front of `tail`; a number has fewer digits than its value plus one
unfoldable pub digits_onto : ℕ → ℕ → String → String
digits_onto zero n tail = tail
digits_onto (suc fuel) n tail =
    let here = String.◌∷◌ (char_at "0123456789" (n % 10)) tail in
    let rest = digits_onto fuel (n / 10) here in if ltb n 10 then here else rest

unfoldable pub decimal : ℕ → String
unfolding digits_onto
decimal n = digits_onto (suc n) n ""
