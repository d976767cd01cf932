-- ===== src/Ranking/Ordered.antt =====
-- src/analytics/subscriber_ranking.py: the order and the numbers of a leaderboard's rows.
use yobi_analytics.Prelude.{
  ℕ, suc, ◌≡◌, refl, ap, sym, true, false, List, [], ◌∷◌, Option, map, String, ◌⊎◌, inl, inr,
  Bool-cases, if◌then◌else◌, All, All-map_pred,
}
use mathlib.Core.Bool.{true≢false}
use yobi_analytics.Prelude.Integers.{ℤ, pos, neg, int_le, int_le-neg, int_le_antisymm}
use yobi_analytics.Prelude.TextOrder.{text_le}
use yobi_analytics.Prelude.Sort.{IsSorted, sorted-IsSorted}
use yobi_analytics.Prelude.SortKeep.{numbered}
use yobi_analytics.Ranking.Order.{ranked, key_le, precedes, precedes-total, precedes_trans}
use yobi_analytics.Ranking.Subscribers.{SubscriberRow, Roster}
use yobi_analytics.Ranking.Leaderboards.{
  TotalCandidate, GrowthCandidate, total_judged, total_row, total_score,
  build_total_subscribers_leaderboard, growth_judged, growth_row, build_growth_leaderboard,
}

-- A larger value comes first, and of two equal values the smaller id.
abbrev pub IsAhead : ℤ → String → ℤ → String → Type 0
IsAhead x s y t = (int_le x y ≡ false) ⊎ ((x ≡ y) × (text_le s t ≡ true))

tie :
    (x : ℤ) (s : String) (y : ℤ) (t : String)
    → int_le x y ≡ true
    → (if int_le y x then if int_le x y then text_le s t else true else false) ≡ true
    → IsAhead x s y t
tie x s y t e h = elim (Bool-cases (int_le y x)) [
  | inl f ↦ inr (int_le_antisymm x y e f, rw (f, e) at h)
  | inr f ↦ absurd (true≢false (sym (rw f at h)))
]

key_le-IsAhead :
    (x : ℤ) (s : String) (y : ℤ) (t : String)
    → key_le (neg x, s) (neg y, t) ≡ true
    → IsAhead x s y t
unfolding key_le
key_le-IsAhead x s y t h = elim (Bool-cases (int_le x y)) [
  | inl e ↦ tie x s y t e (rw (int_le-neg x y, int_le-neg y x) at h)
  | inr e ↦ inl e
]

module _ {A : Type 0} (score : A → ℤ) (name : A → String) where
  -- Every row is ahead of each row after it.
  abbrev pub IsRanking : List A → Type 0
  IsRanking [] = Unit
  IsRanking (x ∷ xs) = All (λ y. IsAhead (score x) (name x) (score y) (name y)) xs × IsRanking xs

  IsSorted-IsRanking : (xs : List A) → IsSorted (precedes score name) xs → IsRanking xs
  unfolding precedes
  IsSorted-IsRanking [] h = tt
  IsSorted-IsRanking (x ∷ xs) h = (
    All-map_pred (λ y e. key_le-IsAhead (score x) (name x) (score y) (name y) e) xs h.0,
    IsSorted-IsRanking xs h.1,
  )

  pub ranked-IsRanking : (xs : List A) → IsRanking (ranked score name xs)
  unfolding ranked
  ranked-IsRanking xs = IsSorted-IsRanking _ (
      sorted-IsSorted (precedes score name) (precedes-total score name) (precedes_trans score name)
        xs)

module _ {A B : Type 0} (score : A → ℤ) (name : A → String) (score_of : B → ℤ)
    (name_of : B → String) (f : ℕ → A → B)
    (same_score : (n : ℕ) (x : A) → score_of (f n x) ≡ score x)
    (same_name : (n : ℕ) (x : A) → name_of (f n x) ≡ name x) where
  numbered-All :
      (x : A) (m n : ℕ) (xs : List A)
      → All (λ y. IsAhead (score x) (name x) (score y) (name y)) xs
      → All
          (λ y. IsAhead (score_of (f m x)) (name_of (f m x)) (score_of y) (name_of y))
          (numbered f n xs)
  unfolding numbered
  numbered-All x m n [] h = tt
  numbered-All x m n (y ∷ ys) h = (
    rw (same_score m x, same_name m x, same_score n y, same_name n y) h.0,
    numbered-All x m (suc n) ys h.1,
  )

  pub numbered-IsRanking :
      (n : ℕ) (xs : List A) → IsRanking score name xs → IsRanking score_of name_of (numbered f n xs)
  unfolding numbered
  numbered-IsRanking n [] h = tt
  numbered-IsRanking n (x ∷ xs) h =
      (numbered-All x n (suc n) xs h.0, numbered-IsRanking (suc n) xs h.1)

-- n, n + 1, … for a list as long as the given one.
abbrev pub count_from {ℓ} : {A : Type ℓ} → ℕ → List A → List ℕ
count_from n [] = []
count_from n (x ∷ xs) = n ∷ count_from (suc n) xs

pub numbered-ranks :
    {A B : Type 0} (f : ℕ → A → B) (rank_of : B → ℕ) (n : ℕ) (xs : List A)
    → ((m : ℕ) (x : A) → rank_of (f m x) ≡ m)
    → map rank_of (numbered f n xs) ≡ count_from n (numbered f n xs)
unfolding numbered
numbered-ranks f rank_of n [] h = refl
numbered-ranks f rank_of n (x ∷ xs) h =
    rw (h n x) (ap (λ ns. n ∷ ns) (numbered-ranks f rank_of (suc n) xs h))

-- The rows of either leaderboard are numbered 1, 2, … in their order; a creator with more
-- subscribers, or with more growth, is ahead of one with fewer, a loss counting as negative growth,
-- and of two with the same value the one whose id is smaller.
pub leaderboards_are_ordered :
    (roster : Option Roster) (rows anchor_rows : List SubscriberRow)
    → let total = (build_total_subscribers_leaderboard roster rows).0 in
      let growth = (build_growth_leaderboard roster anchor_rows rows).0 in
      (map (λ r. r.rank) total ≡ count_from 1 total)
      × IsRanking (λ r. pos r.subscriber_count) (λ r. r.creator_id) total
      × (map (λ r. r.rank) growth ≡ count_from 1 growth)
      × IsRanking (λ r. r.absolute_growth) (λ r. r.creator_id) growth
unfolding build_total_subscribers_leaderboard build_growth_leaderboard
leaderboards_are_ordered roster rows anchor_rows = (
  numbered-ranks total_row (λ r. r.rank) 1 _ (λ m x. refl),
  numbered-IsRanking total_score (λ c. c.creator_id) (λ r. pos r.subscriber_count)
      (λ r. r.creator_id) total_row (λ n x. refl) (λ n x. refl) 1 _
      (ranked-IsRanking {A = TotalCandidate} total_score (λ c. c.creator_id)
        ((total_judged roster rows).0)),
  numbered-ranks growth_row (λ r. r.rank) 1 _ (λ m x. refl),
  numbered-IsRanking (λ c. c.absolute_growth) (λ c. c.creator_id) (λ r. r.absolute_growth)
      (λ r. r.creator_id) growth_row (λ n x. refl) (λ n x. refl) 1 _
      (ranked-IsRanking {A = GrowthCandidate} (λ c. c.absolute_growth) (λ c. c.creator_id)
        ((growth_judged roster anchor_rows rows).0)),
)
