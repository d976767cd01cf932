-- ===== src/Prelude/Integers.antt =====
-- Python's `int` where it can be negative: differences of counts and their order.
use Prim.Native.Nat.{ℕ, zero, suc, ◌+◌, ◌-◌, ◌≤◌}
use mathlib.Core.Path.{◌≡◌, refl, ap, ◌∙◌, sym}
use mathlib.Core.Bool.{Bool, true, false}
use mathlib.Core.Logic.{inl, inr}
use native.Mathlib.Omega.{arith}
use yobi_analytics.Prelude.Tests.{leb, if◌then◌else◌, Bool-cases, leb→le, le→leb}

-- `pos n` is n, `negsuc n` is -(n + 1).
pub data ℤ : Type 0 where
  pos : ℕ → ℤ
  negsuc : ℕ → ℤ

-- The difference of two naturals.
unfoldable pub minus : ℕ → ℕ → ℤ
minus a b = if leb b a then pos (a - b) else negsuc (b - suc a)

unfoldable pub neg : ℤ → ℤ
neg (pos zero) = pos 0
neg (pos (suc n)) = negsuc n
neg (negsuc n) = pos (suc n)

infixl 60 ◌+ℤ◌
unfoldable pub ◌+ℤ◌ : ℤ → ℤ → ℤ
unfolding minus
pos a +ℤ pos b = pos (a + b)
pos a +ℤ negsuc b = minus a (suc b)
negsuc a +ℤ pos b = minus b (suc a)
negsuc a +ℤ negsuc b = negsuc (suc (a + b))

infixl 60 ◌-ℤ◌
unfoldable pub ◌-ℤ◌ : ℤ → ℤ → ℤ
unfolding ◌+ℤ◌ neg
a -ℤ b = a +ℤ neg b

unfoldable pub int_le : ℤ → ℤ → Bool
int_le (pos a) (pos b) = leb a b
int_le (pos a) (negsuc b) = false
int_le (negsuc a) (pos b) = true
int_le (negsuc a) (negsuc b) = leb b a

pub int_le-total : (x y : ℤ) → int_le x y ≡ false → int_le y x ≡ true
unfolding int_le
int_le-total (pos a) (pos b) h = ground arith
int_le-total (pos a) (negsuc b) h = refl
int_le-total (negsuc a) (pos b) h = ground arith
int_le-total (negsuc a) (negsuc b) h = ground arith

pub int_le_trans : (x y z : ℤ) → int_le x y ≡ true → int_le y z ≡ true → int_le x z ≡ true
unfolding int_le
int_le_trans (pos a) (pos b) (pos c) h k = ground arith
int_le_trans (pos a) (pos b) (negsuc c) h k = ground arith
int_le_trans (pos a) (negsuc b) z h k = ground arith
int_le_trans (negsuc a) y (pos c) h k = refl
int_le_trans (negsuc a) (pos b) (negsuc c) h k = ground arith
int_le_trans (negsuc a) (negsuc b) (negsuc c) h k = ground arith

-- Equal integers are those that are at most each other.
pub int_le_antisymm : (x y : ℤ) → int_le x y ≡ true → int_le y x ≡ true → x ≡ y
unfolding int_le
int_le_antisymm (pos a) (pos b) h k = ap pos (ground arith)
int_le_antisymm (pos a) (negsuc b) h k = ground arith
int_le_antisymm (negsuc a) (pos b) h k = ground arith
int_le_antisymm (negsuc a) (negsuc b) h k = ap negsuc (ground arith)

pub int_le-neg : (x y : ℤ) → int_le (neg x) (neg y) ≡ int_le y x
unfolding int_le neg
int_le-neg (pos zero) (pos zero) = refl
int_le-neg (pos zero) (pos (suc b)) = ground arith
int_le-neg (pos (suc a)) (pos zero) = ground arith
int_le-neg (pos (suc a)) (pos (suc b)) = ground arith
int_le-neg (pos zero) (negsuc b) = ground arith
int_le-neg (pos (suc a)) (negsuc b) = refl
int_le-neg (negsuc a) (pos zero) = ground arith
int_le-neg (negsuc a) (pos (suc b)) = refl
int_le-neg (negsuc a) (negsuc b) = ground arith

pub minus_zero : (a : ℕ) → minus a 0 ≡ pos a
unfolding minus
minus_zero a = ground arith

-- The difference of two naturals that are read as integers.
pub sub-pos : (a b : ℕ) → pos a -ℤ pos b ≡ minus a b
unfolding ◌-ℤ◌ ◌+ℤ◌ neg
sub-pos a zero = ap pos (omega arith) ∙ sym (minus_zero a)
sub-pos a (suc b) = refl

sub-minus_below : (a b : ℕ) → b ≤ a → pos a -ℤ pos (a - b) ≡ pos b
unfolding minus
sub-minus_below a b h =
    sub-pos a (a - b) ∙ rw (le→leb (a - b) a (omega arith)) (ap pos (omega arith))

-- Taking the difference away again gives the number that was subtracted.
pub sub-minus : (a b : ℕ) → pos a -ℤ minus a b ≡ pos b
unfolding ◌-ℤ◌ ◌+ℤ◌ neg minus
sub-minus a b = elim (Bool-cases (leb b a)) [
  | inl e ↦ rw e (sub-minus_below a b (leb→le b a e))
  | inr e ↦ rw e (ap pos (ground arith))
]

leb-lt : (a b : ℕ) → leb (a + suc b) a ≡ false
leb-lt a b = ground arith

minus-suc : (a b : ℕ) → minus a (a + suc b) ≡ negsuc b
unfolding minus
minus-suc a b = rw (leb-lt a b) (ap negsuc (omega arith))

-- What is left of a count when a part is taken from it, taken from it, is the part.
pub sub-sub : (a : ℕ) (x : ℤ) → pos a -ℤ (pos a -ℤ x) ≡ x
unfolding ◌-ℤ◌ ◌+ℤ◌ neg
sub-sub a (pos n) = rw (sub-pos a n) (sub-minus a n)
sub-sub a (negsuc n) = sub-pos a (a + suc n) ∙ minus-suc a n
