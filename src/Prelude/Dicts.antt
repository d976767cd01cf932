-- ===== src/Prelude/Dicts.antt =====
-- Lookups in a dict that is joined with another, or filtered.
use mathlib.Core.Path.{◌≡◌, refl, ap}
use mathlib.Core.Logic.{inl, inr}
use mathlib.Core.Bool.{Bool, true, false}
use mathlib.Core.Option.{none, some, some-injective}
use mathlib.Core.List.{[], ◌∷◌, ◌++◌}
use Prim.Native.String.{String}
use text.Mathlib.Text.{◌==◌ as str_eq}
use text.Mathlib.TextEquality.{eq_iff}
use yobi_analytics.Prelude.Tests.{Bool-cases}
use yobi_analytics.Prelude.Lists.{keep}
use yobi_analytics.Prelude.Assoc.{Dict, lookup}

module _ {ℓ} {V : Type ℓ} where
  some-ne-none : (r : V) → some r ≡ none → ⊥
  some-ne-none r h = cc

  first-passes :
      (k j : String) (p : String × V → Bool) (r s : V)
      → j ≡ k
      → r ≡ s
      → p (k, s) ≡ true
      → p (j, r) ≡ true
  first-passes k j p r s e f t = cc

  pub lookup-append_left :
      (k : String) (d e : Dict V) (s : V) → lookup k d ≡ some s → lookup k (d ++ e) ≡ some s
  unfolding lookup
  lookup-append_left k [] e s h = absurd cc
  lookup-append_left k ((j, r) ∷ d) e s h = elim (Bool-cases (str_eq j k)) [
    | inl t ↦ rw t (rw t at h)
    | inr t ↦ rw t (lookup-append_left k d e s (rw t at h))
  ]

  pub lookup-append_right :
      (k : String) (d e : Dict V) → lookup k d ≡ none → lookup k (d ++ e) ≡ lookup k e
  unfolding lookup
  lookup-append_right k [] e h = refl
  lookup-append_right k ((j, r) ∷ d) e h = elim (Bool-cases (str_eq j k)) [
    | inl t ↦ absurd (some-ne-none r (rw t at h))
    | inr t ↦ rw t (lookup-append_right k d e (rw t at h))
  ]

  lookup-keep_skip :
      (k : String) (p : String × V → Bool) (j : String) (r : V) (d : Dict V) (s : V)
      → str_eq j k ≡ false
      → lookup k (keep p d) ≡ some s
      → lookup k (keep p ((j, r) ∷ d)) ≡ some s
  unfolding lookup
  lookup-keep_skip k p j r d s e h = elim (Bool-cases (p (j, r))) [
    | inl t ↦ rw (t, e) h
    | inr t ↦ rw t h
  ]

  -- A test that the key's first value passes keeps that value.
  pub lookup-keep :
      (k : String) (p : String × V → Bool) (d : Dict V) (s : V)
      → lookup k d ≡ some s
      → p (k, s) ≡ true
      → lookup k (keep p d) ≡ some s
  unfolding lookup
  lookup-keep k p [] s h t = h
  lookup-keep k p ((j, r) ∷ d) s h t = elim (Bool-cases (str_eq j k)) [
    | inl e ↦
        let f : r ≡ s = some-injective _ _ (rw e at h) in
        rw (first-passes k j p r s ((eq_iff j k).0 e) f t, e) (ap some f)
    | inr e ↦ lookup-keep_skip k p j r d s e (lookup-keep k p d s (rw e at h) t)
  ]
