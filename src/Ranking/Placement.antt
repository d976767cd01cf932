-- ===== src/Ranking/Placement.antt =====
-- src/analytics/subscriber_ranking.py: who is on a leaderboard, and in which order.
use yobi_analytics.Prelude.{
  ℕ, suc, ◌≡◌, refl, ◌∙◌, Bool, List, [], ◌∷◌, Option, some, Dict, exists, String, str_eq, ◌⊎◌, inl,
  inr,
}
use yobi_analytics.Prelude.Integers.{ℤ}
use yobi_analytics.Prelude.SortKeep.{numbered, exists-sorted}
use yobi_analytics.Ranking.Order.{ranked, precedes}
use yobi_analytics.Ranking.Subscribers.{
  SubscriberRow, Roster, roster_missing_ineligible, judge_rows,
}
use yobi_analytics.Ranking.Leaderboards.{
  total_entry, total_verdict, total_judged, total_row, total_score, TotalSubscribersRow,
  build_total_subscribers_leaderboard, growth_entry, growth_candidacy, growth_judged, growth_row,
  SubscriberGrowthRow, growth_of, anchor_by_creator, build_growth_leaderboard,
}
use yobi_analytics.Ranking.Accounts.{IsUnique, IsNamed, IsAccounted, judge_rows-IsAccounted}

exists-numbered :
    {A B : Type 0} (f : ℕ → A → B) (p : B → Bool) (q : A → Bool) (n : ℕ) (xs : List A)
    → ((m : ℕ) (x : A) → p (f m x) ≡ q x)
    → exists p (numbered f n xs) ≡ exists q xs
unfolding numbered
exists-numbered f p q n [] h = refl
exists-numbered f p q n (x ∷ xs) h = rw (h n x, exists-numbered f p q (suc n) xs h) refl

total_entry-IsNamed :
    (roster : Option Roster) (k : String) (current : String ⊎ (Option String × ℕ))
    → IsNamed (λ c. c.creator_id) (total_verdict roster) k (total_entry k current)
unfolding total_entry
total_entry-IsNamed roster k (inl reason) = tt
total_entry-IsNamed roster k (inr (organization, count)) = refl

pub total_verdict-IsNamed :
    (roster : Option Roster) (row : SubscriberRow)
    → IsNamed (λ c. c.creator_id) (total_verdict roster) row.creator_id (total_verdict roster row)
unfolding total_verdict
total_verdict-IsNamed roster row = total_entry-IsNamed roster row.creator_id _

growth_entry-IsNamed :
    (roster : Option Roster) (anchors : Dict SubscriberRow) (k : String) (anchor : String ⊎ ℕ)
    (current : String ⊎ (Option String × ℕ))
    → IsNamed
        (λ c. c.creator_id)
        (growth_candidacy roster anchors)
        k
        (growth_entry k anchor current)
unfolding growth_entry growth_of
growth_entry-IsNamed roster anchors k anchor (inl reason) = tt
growth_entry-IsNamed roster anchors k (inl reason) (inr (organization, count)) = tt
growth_entry-IsNamed roster anchors k (inr anchor) (inr (organization, count)) = refl

pub growth_candidacy-IsNamed :
    (roster : Option Roster) (anchors : Dict SubscriberRow) (row : SubscriberRow)
    → IsNamed
        (λ c. c.creator_id)
        (growth_candidacy roster anchors)
        row.creator_id
        (growth_candidacy roster anchors row)
unfolding growth_candidacy
growth_candidacy-IsNamed roster anchors row = growth_entry-IsNamed roster anchors row.creator_id _ _

abbrev pub on_total : String → List TotalSubscribersRow → Bool
on_total k board = exists (λ row. str_eq row.creator_id k) board

abbrev pub on_growth : String → List SubscriberGrowthRow → Bool
on_growth k board = exists (λ row. str_eq row.creator_id k) board

ranked-exists :
    {A B : Type 0} (score : A → ℤ) (name : A → String) (f : ℕ → A → B) (p : B → Bool) (q : A → Bool)
    (xs : List A)
    → ((m : ℕ) (x : A) → p (f m x) ≡ q x)
    → exists p (numbered f 1 (ranked score name xs)) ≡ exists q xs
unfolding ranked
ranked-exists score name f p q xs h =
    exists-numbered f p q 1 (ranked score name xs) h ∙ exists-sorted (precedes score name) q xs

-- In a snapshot with one row for each creator, the creators of the roster and those observed are
-- each either on the board of totals or among its ineligible creators, never both, and nobody else
-- is either; so for each period's growth, whatever the anchor's rows are.
pub leaderboards_account_for_all :
    (roster : Roster) (rows anchor_rows : List SubscriberRow) (k : String)
    → IsUnique rows
    → let total = build_total_subscribers_leaderboard (some roster) rows in
      let growth = build_growth_leaderboard (some roster) anchor_rows rows in
      IsAccounted k roster rows (on_total k total.0) total.1
      × IsAccounted k roster rows (on_growth k growth.0) growth.1
unfolding build_total_subscribers_leaderboard build_growth_leaderboard total_judged growth_judged
leaderboards_account_for_all roster rows anchor_rows k u =
    let t = total_verdict (some roster) in
    let g = growth_candidacy (some roster) (anchor_by_creator anchor_rows []) in
    (
      rw
          (ranked-exists total_score (λ c. c.creator_id) total_row (λ r. str_eq r.creator_id k)
            (λ c. str_eq c.creator_id k)
            (judge_rows t rows ([], roster_missing_ineligible rows roster)).0 (λ m x. refl))
          (judge_rows-IsAccounted (λ c. c.creator_id) t k roster rows
            (total_verdict-IsNamed (some roster)) u),
      rw
          (ranked-exists (λ c. c.absolute_growth) (λ c. c.creator_id) growth_row
            (λ r. str_eq r.creator_id k) (λ c. str_eq c.creator_id k)
            (judge_rows g rows ([], roster_missing_ineligible rows roster)).0 (λ m x. refl))
          (judge_rows-IsAccounted (λ c. c.creator_id) g k roster rows
            (growth_candidacy-IsNamed (some roster) (anchor_by_creator anchor_rows [])) u),
    )
