-- ===== src/Prelude/TextOrder.antt =====
-- Python's order on `str`: by code points, left to right.
use Prim.Native.Char.{code}
use Prim.Native.String.{String}
use mathlib.Core.Path.{◌≡◌, refl, ap₂}
use mathlib.Core.Bool.{Bool, true, false}
use native.Mathlib.Omega.{arith}
use text.Mathlib.TextEquality.{Char-path}
use yobi_analytics.Prelude.Tests.{ltb, ◌==◌, if◌then◌else◌}

-- `s <= t`
unfoldable pub text_le : String → String → Bool
text_le String.[] t = true
text_le (String.◌∷◌ c s) String.[] = false
text_le (String.◌∷◌ c s) (String.◌∷◌ d t) =
    let rest = text_le s t in if code c == code d then rest else ltb (code c) (code d)

pub text_le-total : (s t : String) → text_le s t ≡ false → text_le t s ≡ true
unfolding text_le
text_le-total String.[] t h = ground arith
text_le-total (String.◌∷◌ c s) String.[] h = refl
text_le-total (String.◌∷◌ c s) (String.◌∷◌ d t) h = ground (arith, text_le-total s t)

pub text_le_trans : (s t u : String) → text_le s t ≡ true → text_le t u ≡ true → text_le s u ≡ true
unfolding text_le
text_le_trans String.[] t u h k = refl
text_le_trans (String.◌∷◌ c s) String.[] u h k = ground arith
text_le_trans (String.◌∷◌ c s) (String.◌∷◌ d t) String.[] h k = ground arith
text_le_trans (String.◌∷◌ c s) (String.◌∷◌ d t) (String.◌∷◌ e u) h k =
    ground (arith, text_le_trans s t u)

pub text_le_antisymm : (s t : String) → text_le s t ≡ true → text_le t s ≡ true → s ≡ t
unfolding text_le
text_le_antisymm String.[] String.[] h k = refl
text_le_antisymm String.[] (String.◌∷◌ d t) h k = ground arith
text_le_antisymm (String.◌∷◌ c s) String.[] h k = ground arith
text_le_antisymm (String.◌∷◌ c s) (String.◌∷◌ d t) h k =
    ap₂ String.◌∷◌ (Char-path c d same)
      (text_le_antisymm s t (ground (arith, same)) (ground (arith, same)))
  where
    same : code c ≡ code d
    same = ground arith
