-- ===== src/Prelude/TextSets.antt =====
-- Python's `set` of strings as a list, read through `member`.
use Prim.Native.String.{String}
use mathlib.Core.Path.{◌≡◌, refl, ◌∙◌}
use mathlib.Core.Bool.{Bool, ◌&&◌, ◌||◌}
use mathlib.Core.List.{List, [], ◌∷◌, ◌++◌}
use native.Mathlib.Omega.{arith}
use text.Mathlib.TextEquality.{eq_iff}
use yobi_analytics.Prelude.Tests.{if◌then◌else◌}
use yobi_analytics.Prelude.Lists.{keep}
use yobi_analytics.Prelude.Assoc.{member}
use yobi_analytics.Prelude.TextOrder.{text_le}
use yobi_analytics.Prelude.Sort.{place, sorted}

-- `set(xs)`: each member once.
unfoldable pub distinct : List String → List String
distinct [] = []
distinct (x ∷ xs) = let rest = distinct xs in if member x rest then rest else x ∷ rest

-- `sorted(set(xs))`
unfoldable pub sorted_set : List String → List String
unfolding distinct
sorted_set xs = sorted text_le (distinct xs)

pub member-distinct : (k : String) (xs : List String) → member k (distinct xs) ≡ member k xs
unfolding distinct member
member-distinct k [] = refl
member-distinct k (x ∷ xs) = ground (arith, member-distinct k xs, member-distinct x xs, eq_iff x k)

pub member-place :
    (le : String → String → Bool) (k x : String) (ys : List String)
    → member k (place le x ys) ≡ member k (x ∷ ys)
unfolding place member
member-place le k x [] = refl
member-place le k x (y ∷ ys) = ground (arith, member-place le k x ys)

pub member-sorted :
    (le : String → String → Bool) (k : String) (xs : List String)
    → member k (sorted le xs) ≡ member k xs
unfolding sorted member
member-sorted le k [] = refl
member-sorted le k (x ∷ xs) =
    ground (arith, member-place le k x (sorted le xs), member-sorted le k xs)

pub member-sorted_set : (k : String) (xs : List String) → member k (sorted_set xs) ≡ member k xs
unfolding sorted_set
member-sorted_set k xs = member-sorted text_le k (distinct xs) ∙ member-distinct k xs

pub member-append :
    (k : String) (xs ys : List String) → member k (xs ++ ys) ≡ (member k xs || member k ys)
unfolding member
member-append k [] ys = refl
member-append k (x ∷ xs) ys = ground (arith, member-append k xs ys)

pub member-keep :
    (p : String → Bool) (k : String) (xs : List String)
    → member k (keep p xs) ≡ (member k xs && p k)
unfolding member
member-keep p k [] = refl
member-keep p k (x ∷ xs) = ground (arith, member-keep p k xs, eq_iff x k)
