-- ===== src/Ranking/Order.antt =====
-- The sort key of every ranking: `(-count, id)`, compared as Python compares tuples.
use yobi_analytics.Prelude.{◌≡◌, Bool, true, false, List, String, if◌then◌else◌, arith}
use yobi_analytics.Prelude.TextOrder.{text_le, text_le-total, text_le_trans}
use yobi_analytics.Prelude.Sort.{sorted}
use yobi_analytics.Prelude.Integers.{ℤ, neg, int_le, int_le-total, int_le_trans}

-- `(x, s) <= (y, t)`: the texts are compared when the integers are equal.
unfoldable pub key_le : ℤ × String → ℤ × String → Bool
key_le (x, s) (y, t) = if int_le x y then if int_le y x then text_le s t else true else false

key_le-total : (a b : ℤ × String) → key_le a b ≡ false → key_le b a ≡ true
unfolding key_le
key_le-total (x, s) (y, t) h = ground (arith, int_le-total x y, int_le-total y x, text_le-total s t)

key_le_trans : (a b c : ℤ × String) → key_le a b ≡ true → key_le b c ≡ true → key_le a c ≡ true
unfolding key_le
key_le_trans (x, s) (y, t) (z, u) h k =
    ground (arith, int_le_trans x y z, int_le_trans y z x, int_le_trans z x y, text_le_trans s t u)

module _ {A : Type 0} (score : A → ℤ) (name : A → String) where
  unfoldable pub precedes : A → A → Bool
  unfolding key_le neg
  precedes a b = key_le (neg (score a), name a) (neg (score b), name b)

  pub precedes-total : (a b : A) → precedes a b ≡ false → precedes b a ≡ true
  unfolding precedes
  precedes-total a b h = key_le-total _ _ h

  pub precedes_trans : (a b c : A) → precedes a b ≡ true → precedes b c ≡ true → precedes a c ≡ true
  unfolding precedes
  precedes_trans a b c h k = key_le_trans _ _ _ h k

  -- `sorted(xs, key=lambda x: (-score(x), name(x)))`
  unfoldable pub ranked : List A → List A
  unfolding precedes sorted
  ranked xs = sorted precedes xs
