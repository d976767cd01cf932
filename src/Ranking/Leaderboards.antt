-- ===== src/Ranking/Leaderboards.antt =====
-- src/analytics/subscriber_ranking.py: the builders of the leaderboards and their views by
-- organization. A percentage is its numerator and denominator: it is for display and no order
-- reads it.
use yobi_analytics.Prelude.{
  ℕ, zero, suc, Bool, false, Option, none, some, List, [], ◌∷◌, Dict, lookup, insert, keep, String,
  str_eq, ◌⊎◌, inl, inr,
}
use yobi_analytics.Prelude.Integers.{ℤ, pos, minus}
use yobi_analytics.Prelude.SortKeep.{numbered}
use yobi_analytics.Ranking.Order.{ranked}
use yobi_analytics.Ranking.Subscribers.{
  SubscriberRow, Roster, roster_missing_ineligible, validate_roster_membership, usable_count,
  current_check, judge_rows,
}

pub record TotalSubscribersRow : Type 0 where
  pub rank : ℕ
  pub creator_id : String
  pub organization : Option String
  pub subscriber_count : ℕ

pub record SubscriberGrowthRow : Type 0 where
  pub rank : ℕ
  pub creator_id : String
  pub organization : Option String
  pub current_subscriber_count : ℕ
  pub anchor_subscriber_count : ℕ
  pub absolute_growth : ℤ
  pub percentage_growth : Option (ℤ × ℕ)

-- `dimensions_by_creator or {}`
abbrev pub roster_or_empty : Option Roster → Roster
roster_or_empty none = []
roster_or_empty (some roster) = roster

-- A candidate for the total: `(creator_id, subscriber_count, organization)`.
pub record TotalCandidate : Type 0 where
  pub creator_id : String
  pub subscriber_count : ℕ
  pub organization : Option String

unfoldable pub total_entry : String → String ⊎ (Option String × ℕ) → String ⊎ TotalCandidate
total_entry creator_id (inl reason) = inl reason
total_entry creator_id (inr (organization, count)) =
    inr record { creator_id = creator_id; subscriber_count = count; organization = organization }

unfoldable pub total_verdict : Option Roster → SubscriberRow → String ⊎ TotalCandidate
unfolding current_check validate_roster_membership total_entry
total_verdict roster row =
    total_entry row.creator_id
      (current_check (validate_roster_membership row.creator_id roster) row)

abbrev pub total_score : TotalCandidate → ℤ
total_score candidate = pos candidate.subscriber_count

abbrev pub total_row : ℕ → TotalCandidate → TotalSubscribersRow
total_row rank candidate = record {
  rank = rank;
  creator_id = candidate.creator_id;
  organization = candidate.organization;
  subscriber_count = candidate.subscriber_count;
}

unfoldable pub total_judged : Option Roster → List SubscriberRow → List TotalCandidate × Dict String
unfolding judge_rows total_verdict roster_missing_ineligible
total_judged roster rows =
    judge_rows (total_verdict roster) rows
      ([], roster_missing_ineligible rows (roster_or_empty roster))

unfoldable pub build_total_subscribers_leaderboard :
    Option Roster → List SubscriberRow → List TotalSubscribersRow × Dict String
unfolding total_judged ranked numbered
build_total_subscribers_leaderboard roster rows =
    let judged = total_judged roster rows in
    (numbered total_row 1 (ranked total_score (λ c. c.creator_id) judged.0), judged.1)

pub record GrowthCandidate : Type 0 where
  pub creator_id : String
  pub current_count : ℕ
  pub anchor_count : ℕ
  pub absolute_growth : ℤ
  pub percentage_growth : Option (ℤ × ℕ)
  pub organization : Option String

-- `{row.creator_id: row for row in anchor_rows}`
unfoldable pub anchor_by_creator : List SubscriberRow → Dict SubscriberRow → Dict SubscriberRow
unfolding insert
anchor_by_creator [] d = d
anchor_by_creator (row ∷ rows) d = anchor_by_creator rows (insert row.creator_id row d)

unfoldable pub percentage : ℤ → ℕ → Option (ℤ × ℕ)
percentage growth zero = none
percentage growth (suc n) = some (growth, suc n)

unfoldable pub anchor_check : Option SubscriberRow → String ⊎ ℕ
unfolding usable_count
anchor_check none = inl "anchor_missing"
anchor_check (some anchor) = usable_count "anchor_hidden" "anchor_missing" anchor

unfoldable pub growth_of : String → Option String → ℕ → ℕ → GrowthCandidate
unfolding minus percentage
growth_of creator_id organization count anchor = record {
  creator_id = creator_id;
  current_count = count;
  anchor_count = anchor;
  absolute_growth = minus count anchor;
  percentage_growth = percentage (minus count anchor) anchor;
  organization = organization;
}

-- The anchor is read for a row whose organization and current count are usable.
unfoldable pub growth_entry :
    String → String ⊎ ℕ → String ⊎ (Option String × ℕ) → String ⊎ GrowthCandidate
unfolding growth_of
growth_entry creator_id anchor (inl reason) = inl reason
growth_entry creator_id (inl reason) (inr (organization, count)) = inl reason
growth_entry creator_id (inr anchor) (inr (organization, count)) =
    inr (growth_of creator_id organization count anchor)

unfoldable pub growth_candidacy :
    Option Roster → Dict SubscriberRow → SubscriberRow → String ⊎ GrowthCandidate
unfolding current_check validate_roster_membership growth_entry anchor_check lookup
growth_candidacy roster anchors row =
    growth_entry row.creator_id (anchor_check (lookup row.creator_id anchors))
      (current_check (validate_roster_membership row.creator_id roster) row)

abbrev pub growth_row : ℕ → GrowthCandidate → SubscriberGrowthRow
growth_row rank candidate = record {
  rank = rank;
  creator_id = candidate.creator_id;
  organization = candidate.organization;
  current_subscriber_count = candidate.current_count;
  anchor_subscriber_count = candidate.anchor_count;
  absolute_growth = candidate.absolute_growth;
  percentage_growth = candidate.percentage_growth;
}

unfoldable pub growth_judged :
    Option Roster → List SubscriberRow → List SubscriberRow → List GrowthCandidate × Dict String
unfolding judge_rows growth_candidacy roster_missing_ineligible anchor_by_creator
growth_judged roster anchor_rows rows =
    judge_rows (growth_candidacy roster (anchor_by_creator anchor_rows [])) rows
      ([], roster_missing_ineligible rows (roster_or_empty roster))

unfoldable pub build_growth_leaderboard :
    Option Roster → List SubscriberRow → List SubscriberRow → List SubscriberGrowthRow × Dict String
unfolding growth_judged ranked numbered
build_growth_leaderboard roster anchor_rows rows =
    let judged = growth_judged roster anchor_rows rows in
    (numbered growth_row 1 (ranked (λ c. c.absolute_growth) (λ c. c.creator_id) judged.0), judged.1)

pub record SubscriberLeaderboards : Type 0 where
  pub total : List TotalSubscribersRow
  pub total_ineligible : Dict String
  pub growth : Dict (List SubscriberGrowthRow)
  pub growth_ineligible : Dict (Dict String)

-- `anchor_rows_by_days` at the three anchors, [] where a key is missing.
abbrev pub AnchorRows : Type 0
AnchorRows = ℕ → List SubscriberRow

unfoldable pub build_subscriber_leaderboards :
    Roster → List SubscriberRow → AnchorRows → SubscriberLeaderboards
unfolding build_total_subscribers_leaderboard build_growth_leaderboard
build_subscriber_leaderboards roster rows anchors =
    let total = build_total_subscribers_leaderboard (some roster) rows in
    let day = build_growth_leaderboard (some roster) (anchors 1) rows in
    let week = build_growth_leaderboard (some roster) (anchors 7) rows in
    let month = build_growth_leaderboard (some roster) (anchors 30) rows in
    record {
      total = total.0;
      total_ineligible = total.1;
      growth = ("1d", day.0) ∷ ("7d", week.0) ∷ ("30d", month.0) ∷ [];
      growth_ineligible = ("1d", day.1) ∷ ("7d", week.1) ∷ ("30d", month.1) ∷ [];
    }

-- `organization == wanted` for an organization that may be None.
abbrev pub is_organization : String → Option String → Bool
is_organization wanted none = false
is_organization wanted (some o) = str_eq o wanted

-- What `filter_by_organization` needs of either row type.
module _ {Row : Type 0} (organization_of : Row → Option String) (with_rank : ℕ → Row → Row) where
  unfoldable pub filter_by_organization : List Row → String → List Row
  unfolding numbered
  filter_by_organization rows organization =
      numbered with_rank 1 (keep (λ row. is_organization organization (organization_of row)) rows)

abbrev pub with_total_rank : ℕ → TotalSubscribersRow → TotalSubscribersRow
with_total_rank rank row = record row { rank = rank }

abbrev pub with_growth_rank : ℕ → SubscriberGrowthRow → SubscriberGrowthRow
with_growth_rank rank row = record row { rank = rank }
