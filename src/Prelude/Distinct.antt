-- ===== src/Prelude/Distinct.antt =====
-- Lists of strings that name nothing twice.
use Prim.Native.Nat.{ℕ, zero, suc}
use Prim.Native.String.{String}
use mathlib.Core.Path.{◌≡◌, refl, ◌∙◌}
use mathlib.Core.Bool.{Bool, false}
use mathlib.Core.List.{List, [], ◌∷◌}
use mathlib.Core.Logic.{inl, inr}
use native.Mathlib.Omega.{arith}
use text.Mathlib.TextEquality.{eq_iff}
use yobi_analytics.Prelude.Tests.{Bool-cases}
use yobi_analytics.Prelude.Lists.{take, drop}
use yobi_analytics.Prelude.Assoc.{member}
use yobi_analytics.Prelude.TextOrder.{text_le}
use yobi_analytics.Prelude.Sort.{place, sorted}
use yobi_analytics.Prelude.TextSets.{distinct, sorted_set, member-place, member-sorted}

abbrev pub IsDistinct : List String → Type 0
IsDistinct [] = Unit
IsDistinct (x ∷ xs) = (member x xs ≡ false) × IsDistinct xs

distinct-IsDistinct : (xs : List String) → IsDistinct (distinct xs)
unfolding distinct
distinct-IsDistinct [] = tt
distinct-IsDistinct (x ∷ xs) = elim (Bool-cases (member x (distinct xs))) [
  | inl e ↦ rw e (distinct-IsDistinct xs)
  | inr e ↦ rw e (e, distinct-IsDistinct xs)
]

place-IsDistinct :
    (le : String → String → Bool) (x : String) (ys : List String)
    → IsDistinct (x ∷ ys)
    → IsDistinct (place le x ys)
unfolding place member
place-IsDistinct le x [] h = h
place-IsDistinct le x (y ∷ ys) (new, (fresh, rest)) = elim (Bool-cases (le x y)) [
  | inl e ↦ rw e (new, (fresh, rest))
  | inr e ↦ rw e (
    ground (arith, member-place le y x ys, eq_iff x y, eq_iff y x),
    place-IsDistinct le x ys (ground arith, rest),
  )
]

pub sorted-IsDistinct :
    (le : String → String → Bool) (xs : List String) → IsDistinct xs → IsDistinct (sorted le xs)
unfolding sorted
sorted-IsDistinct le [] h = tt
sorted-IsDistinct le (x ∷ xs) (new, rest) =
    place-IsDistinct le x (sorted le xs) (member-sorted le x xs ∙ new, sorted-IsDistinct le xs rest)

pub sorted_set-IsDistinct : (xs : List String) → IsDistinct (sorted_set xs)
unfolding sorted_set
sorted_set-IsDistinct xs = sorted-IsDistinct text_le (distinct xs) (distinct-IsDistinct xs)

member-take :
    (n : ℕ) (k : String) (ks : List String) → member k ks ≡ false → member k (take n ks) ≡ false
unfolding member
member-take zero k ks h = refl
member-take (suc n) k [] h = refl
member-take (suc n) k (j ∷ ks) h = ground (arith, member-take n k ks)

pub take-IsDistinct : (n : ℕ) (xs : List String) → IsDistinct xs → IsDistinct (take n xs)
take-IsDistinct zero xs h = tt
take-IsDistinct (suc n) [] h = tt
take-IsDistinct (suc n) (x ∷ xs) (new, rest) = (member-take n x xs new, take-IsDistinct n xs rest)

pub drop-IsDistinct : (n : ℕ) (xs : List String) → IsDistinct xs → IsDistinct (drop n xs)
drop-IsDistinct zero xs h = h
drop-IsDistinct (suc n) [] h = tt
drop-IsDistinct (suc n) (x ∷ xs) (_, rest) = drop-IsDistinct n xs rest
