-- ===== src/Ranking/VideoRanking.antt =====
-- rank_video_rows of src/analytics/video_ranking.py over the rows that
-- src/analytics/video_ranking_result.py persists. A percentage is its numerator and denominator.
use yobi_analytics.Prelude.{
  ℕ, suc, Bool, true, false, not, Option, none, some, List, [], ◌∷◌, keep, member, String, str_eq,
  if◌then◌else◌,
}
use yobi_analytics.Prelude.Integers.{ℤ, pos, ◌-ℤ◌}
use yobi_analytics.Prelude.SortKeep.{numbered}
use yobi_analytics.Ranking.Order.{ranked}
use yobi_analytics.Ranking.VideoCatalog.{Period, VideoRankingRow}

-- A persisted row; a key that is missing reads as None.
pub record PersistedRow : Type 0 where
  pub video_id : String
  pub creator_id : String
  pub topic : String
  pub content_type : Option String
  pub live_status : Option String
  pub current_view_count : ℕ
  pub anchor_view_count : Period → Option ℤ
  pub title : Option String
  pub thumbnail_url : Option String
  pub published_at : Option String
  pub discovered_at : Option String

unfoldable pub serialize_row : VideoRankingRow → PersistedRow
serialize_row row = record {
  video_id = row.video_id;
  creator_id = row.creator_id;
  topic = row.topic;
  content_type = row.content_type;
  live_status = row.live_status;
  current_view_count = row.current_view_count;
  anchor_view_count = row.anchor_view_counts;
  title = row.title;
  thumbnail_url = row.thumbnail_url;
  published_at = row.published_at;
  discovered_at = row.discovered_at;
}

pub data Metric : Type 0 where
  total_metric : Metric
  growth_metric : Period → Metric

pub record Scopes : Type 0 where
  pub topic : String
  pub content_type : String
  pub live_status : String
  pub exclude_shorts : Bool

-- `value == scope` for a value that may be None.
abbrev pub equals : Option String → String → Bool
equals none scope = false
equals (some value) scope = str_eq value scope

abbrev pub is_active_status : Option String → Bool
is_active_status none = false
is_active_status (some status) = member status ("upcoming" ∷ "live" ∷ [])

unfoldable pub row_matches_live_status : PersistedRow → String → Bool
unfolding member
row_matches_live_status row scope =
    if str_eq scope "all"
    then true
    else if str_eq scope "archived"
    then not (is_active_status row.live_status)
    else equals row.live_status scope

-- A filter that is skipped when its scope does not ask for it.
abbrev pub keep_unless : Bool → (PersistedRow → Bool) → List PersistedRow → List PersistedRow
keep_unless skip p rows = if skip then rows else keep p rows

unfoldable pub filter_rows : Scopes → List PersistedRow → List PersistedRow
unfolding row_matches_live_status
filter_rows s rows =
    let by_topic = keep_unless (str_eq s.topic "all") (λ row. str_eq row.topic s.topic) rows in
    let by_type =
      keep_unless (str_eq s.content_type "all") (λ row. equals row.content_type s.content_type)
        by_topic in
    let by_shorts =
      keep_unless (not s.exclude_shorts) (λ row. not (equals row.content_type "short")) by_type in
    keep_unless (str_eq s.live_status "all") (λ row. row_matches_live_status row s.live_status)
      by_shorts

pub record Growth : Type 0 where
  pub anchor_view_count : ℤ
  pub absolute_growth : ℤ
  pub percentage_growth : Option (ℤ × ℕ)

pub record RankedVideo : Type 0 where
  pub rank : ℕ
  pub video_id : String
  pub creator_id : String
  pub topic : String
  pub content_type : Option String
  pub live_status : Option String
  pub current_view_count : ℕ
  pub growth : Option Growth
  pub title : Option String
  pub thumbnail_url : Option String
  pub published_at : Option String

unfoldable pub output_row : Option Growth → ℕ → PersistedRow → RankedVideo
output_row growth rank row = record {
  rank = rank;
  video_id = row.video_id;
  creator_id = row.creator_id;
  topic = row.topic;
  content_type = row.content_type;
  live_status = row.live_status;
  current_view_count = row.current_view_count;
  growth = growth;
  title = row.title;
  thumbnail_url = row.thumbnail_url;
  published_at = row.published_at;
}

unfoldable pub total_output_row : ℕ → PersistedRow → RankedVideo
unfolding output_row
total_output_row rank row = output_row none rank row

-- None unless the anchor is positive.
unfoldable pub percentage_of : ℤ → ℤ → Option (ℤ × ℕ)
percentage_of change (pos (suc n)) = some (change, suc n)
percentage_of change _ = none

abbrev pub growth_of_row : PersistedRow × ℤ → ℤ
growth_of_row (row, anchor) = pos row.current_view_count -ℤ anchor

unfoldable pub growth_output_row : ℕ → PersistedRow × ℤ → RankedVideo
unfolding output_row percentage_of ◌-ℤ◌
growth_output_row rank candidate =
    let change = growth_of_row candidate in
    output_row
      (some (record {
        anchor_view_count = candidate.1;
        absolute_growth = change;
        percentage_growth = percentage_of change candidate.1;
      }))
      rank candidate.0

abbrev pub attach : PersistedRow → Option ℤ → List (PersistedRow × ℤ) → List (PersistedRow × ℤ)
attach row none rest = rest
attach row (some anchor) rest = (row, anchor) ∷ rest

-- The rows whose anchor of the period is there, each with its anchor.
unfoldable pub with_anchor : Period → List PersistedRow → List (PersistedRow × ℤ)
with_anchor p [] = []
with_anchor p (row ∷ rows) = attach row (row.anchor_view_count p) (with_anchor p rows)

unfoldable pub rank_filtered : Metric → List PersistedRow → List RankedVideo
unfolding total_output_row growth_output_row with_anchor ranked numbered ◌-ℤ◌
rank_filtered total_metric rows =
    numbered total_output_row 1
      (ranked (λ row. pos row.current_view_count) (λ row. row.video_id) rows)
rank_filtered (growth_metric p) rows =
    numbered growth_output_row 1 (ranked growth_of_row (λ c. (c.0).video_id) (with_anchor p rows))

unfoldable pub rank_video_rows : List PersistedRow → Metric → Scopes → List RankedVideo
unfolding filter_rows rank_filtered
rank_video_rows rows metric scopes = rank_filtered metric (filter_rows scopes rows)
