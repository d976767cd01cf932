-- ===== src/Prelude/SortKeep.antt =====
-- A sorted list that is searched, filtered or numbered.
use Prim.Native.Nat.{ℕ, suc}
use mathlib.Core.Path.{◌≡◌, refl, ap, sym, ◌∙◌}
use mathlib.Core.Bool.{Bool, true, false, ◌||◌}
use mathlib.Core.List.{List, [], ◌∷◌, ◌++◌}
use mathlib.Core.Logic.{inl, inr}
use native.Mathlib.Omega.{arith}
use yobi_analytics.Prelude.Tests.{Bool-cases}
use yobi_analytics.Prelude.Lists.{All, All-map_pred, exists, keep, length}
use yobi_analytics.Prelude.Sort.{place, sorted, IsSorted, sorted-IsSorted}

-- `[f(n, x) for n, x in enumerate(xs, start=n)]`
unfoldable pub numbered {ℓ κ} : {A : Type ℓ} {B : Type κ} → (ℕ → A → B) → ℕ → List A → List B
numbered f n [] = []
numbered f n (x ∷ xs) = f n x ∷ numbered f (suc n) xs

pub exists-append {ℓ} :
    {A : Type ℓ} (p : A → Bool) (xs ys : List A)
    → exists p (xs ++ ys) ≡ (exists p xs || exists p ys)
exists-append p [] ys = refl
exists-append p (x ∷ xs) ys = ground (arith, exists-append p xs ys)

module _ {ℓ} {A : Type ℓ} (le : A → A → Bool) where
  exists-place : (p : A → Bool) (x : A) (ys : List A) → exists p (place le x ys) ≡ exists p (x ∷ ys)
  unfolding place
  exists-place p x [] = refl
  exists-place p x (y ∷ ys) = ground (arith, exists-place p x ys)

  pub exists-sorted : (p : A → Bool) (xs : List A) → exists p (sorted le xs) ≡ exists p xs
  unfolding sorted
  exists-sorted p [] = refl
  exists-sorted p (x ∷ xs) = ground (arith, exists-place p x (sorted le xs), exists-sorted p xs)

  length-place : (x : A) (ys : List A) → length (place le x ys) ≡ suc (length ys)
  unfolding place
  length-place x [] = refl
  length-place x (y ∷ ys) = ground (arith, length-place x ys)

  pub length-sorted : (xs : List A) → length (sorted le xs) ≡ length xs
  unfolding sorted
  length-sorted [] = refl
  length-sorted (x ∷ xs) = length-place x (sorted le xs) ∙ ap suc (length-sorted xs)

module _ {ℓ} {A : Type ℓ} (le : A → A → Bool) (total : (a b : A) → le a b ≡ false → le b a ≡ true)
    (trans : (a b c : A) → le a b ≡ true → le b c ≡ true → le a c ≡ true) (p : A → Bool) where
  -- What comes before a sorted list goes to the head of what is kept of it.
  place-keep_head :
      (x : A) (ys : List A) → All (λ y. le x y ≡ true) ys → place le x (keep p ys) ≡ x ∷ keep p ys
  unfolding place
  place-keep_head x [] h = refl
  place-keep_head x (y ∷ ys) h = elim (Bool-cases (p y)) [
    | inl e ↦ rw (e, h.0) refl
    | inr e ↦ rw e (place-keep_head x ys h.1)
  ]

  keep-place_after :
      (x y : A) (ys : List A)
      → le x y ≡ false
      → keep p (place le x ys) ≡ place le x (keep p ys)
      → keep p (y ∷ place le x ys) ≡ place le x (keep p (y ∷ ys))
  unfolding place
  keep-place_after x y ys e h = elim (Bool-cases (p y)) [
    | inl t ↦ rw (t, e) (ap (λ zs. y ∷ zs) h)
    | inr t ↦ rw t h
  ]

  keep-place_kept :
      (x : A) (ys : List A)
      → IsSorted le ys
      → p x ≡ true
      → keep p (place le x ys) ≡ place le x (keep p ys)
  unfolding place
  keep-place_kept x [] h t = rw t refl
  keep-place_kept x (y ∷ ys) h t = elim (Bool-cases (le x y)) [
    | inl e ↦
        let below : All (λ z. le x z ≡ true) (y ∷ ys) =
          (e, All-map_pred (λ z le_yz. trans x y z e le_yz) ys h.0) in
        rw (e, t) (sym (place-keep_head x (y ∷ ys) below))
    | inr e ↦ rw e (keep-place_after x y ys e (keep-place_kept x ys h.1 t))
  ]

  keep-place_left : (x : A) (ys : List A) → p x ≡ false → keep p (place le x ys) ≡ keep p ys
  unfolding place
  keep-place_left x [] t = rw t refl
  keep-place_left x (y ∷ ys) t = ground (arith, keep-place_left x ys t)

  -- A sorted list that is filtered is the filtered list sorted.
  pub keep-sorted : (xs : List A) → keep p (sorted le xs) ≡ sorted le (keep p xs)
  unfolding sorted
  keep-sorted [] = refl
  keep-sorted (x ∷ xs) = elim (Bool-cases (p x)) [
    | inl t ↦ rw t (
        keep-place_kept x (sorted le xs) (sorted-IsSorted le total trans xs) t
        ∙ ap (place le x) (keep-sorted xs))
    | inr t ↦ rw t (keep-place_left x (sorted le xs) t ∙ keep-sorted xs)
  ]
