-- ===== src/Base/Texts.antt =====
-- Comparison of texts.
use Prim.Native.String.{String}
use mathlib.Core.Path.{◌≡◌, sym, ◌∙◌}
use mathlib.Core.Bool.{true}
use text.Mathlib.Text.{◌==◌}
use text.Mathlib.TextEquality.{eq_iff}

-- A text equals two others only if these are equal: at two different literals, a contradiction.
pub two_texts : (s a b : String) → (s == a) ≡ true → (s == b) ≡ true → (a == b) ≡ true
two_texts s a b h k = (eq_iff a b).1 (sym ((eq_iff s a).0 h) ∙ (eq_iff s b).0 k)
