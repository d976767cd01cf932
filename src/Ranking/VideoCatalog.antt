-- ===== src/Ranking/VideoCatalog.antt =====
-- src/analytics/history_ranking.py and build_creator_video_catalog of
-- src/analytics/video_ranking.py. A date is its ordinal, `date.min` the ordinal 1; a report date is
-- later than 30 days after it.
use yobi_analytics.Prelude.{
  ℕ, ◌-◌, Bool, Option, none, some, List, [], ◌∷◌, Dict, lookup, insert, keep, member, String,
  str_eq, ltb, if◌then◌else◌,
}
use yobi_analytics.Prelude.Integers.{ℤ, pos, minus, ◌-ℤ◌}
use yobi_analytics.Prelude.Optional.{◌>>=◌}
use yobi_analytics.Prelude.TextOrder.{text_le}
use yobi_analytics.Prelude.Sort.{sorted}
use yobi_analytics.HistoryWorker.Records.{HistoryRow}

-- EXACT_ANCHOR_DAYS, and the growth metrics "1d", "7d" and "30d".
pub data Period : Type 0 where
  day week month : Period

abbrev pub days_of : Period → ℕ
days_of day = 1
days_of week = 7
days_of month = 30

abbrev pub unknown_discovered_date : ℕ
unknown_discovered_date = 1

unfoldable pub period_value : ℕ → Option ℕ → ℕ → ℕ → Option ℤ
unfolding minus
period_value latest (some anchor) anchor_date discovered = some (minus latest anchor)
period_value latest none anchor_date discovered =
    if ltb anchor_date discovered then some (pos latest) else none

-- `{row.video_id: row.view_count for row in rows}`
unfoldable pub view_counts : List HistoryRow → Dict ℕ → Dict ℕ
unfolding insert
view_counts [] d = d
view_counts (row ∷ rows) d = view_counts rows (insert row.video_id row.view_count d)

abbrev pub date_or_unknown : Option ℕ → ℕ
date_or_unknown none = unknown_discovered_date
date_or_unknown (some d) = d

abbrev pub Gains : Type 0
Gains = Period → Option ℤ

-- The gains of one row, by the anchors' rows and the discovery dates.
unfoldable pub gains_of : (Period → List HistoryRow) → ℕ → Dict ℕ → HistoryRow → Gains
unfolding period_value view_counts lookup
gains_of anchor_rows report_date discovered row p =
    period_value row.view_count (lookup row.video_id (view_counts (anchor_rows p) []))
      (report_date - days_of p) (date_or_unknown (lookup row.video_id discovered))

unfoldable pub insert_gains : (HistoryRow → Gains) → List HistoryRow → Dict Gains → Dict Gains
unfolding insert
insert_gains gains [] d = d
insert_gains gains (row ∷ rows) d = insert_gains gains rows (insert row.video_id (gains row) d)

unfoldable pub exact_gains : List HistoryRow → (Period → List HistoryRow) → ℕ → Dict ℕ → Dict Gains
unfolding insert_gains gains_of
exact_gains today_rows anchor_rows report_date discovered =
    insert_gains (gains_of anchor_rows report_date discovered) today_rows []

pub record VideoRankingRow : Type 0 where
  pub video_id : String
  pub creator_id : String
  pub topic : String
  pub content_type : Option String
  pub live_status : Option String
  pub current_view_count : ℕ
  pub anchor_view_counts : Period → Option ℤ
  pub title : Option String
  pub thumbnail_url : Option String
  pub published_at : Option String
  pub discovered_at : Option String

abbrev pub valid_content_types : List String
valid_content_types = "live" ∷ "upload" ∷ "short" ∷ []

abbrev pub valid_live_statuses : List String
valid_live_statuses = "upcoming" ∷ "live" ∷ "completed" ∷ []

unfoldable pub topic_or_other : List String → Option String → String
unfolding member
topic_or_other topic_ids none = "other"
topic_or_other topic_ids (some topic) = if member topic topic_ids then topic else "other"

-- `value if value in valid else None`
unfoldable pub valid_or_none : List String → Option String → Option String
unfolding member
valid_or_none valid none = none
valid_or_none valid (some value) = if member value valid then some value else none

-- `d.get(k)` for values that may be None.
abbrev pub get_optional : String → Dict (Option String) → Option String
get_optional k d = elim (lookup k d) [ none ↦ none | some value ↦ value ]

-- What the catalog takes from the tracking manifest, by video id.
pub record VideoInfo : Type 0 where
  pub topic : Dict String
  pub content_type : Dict (Option String)
  pub live_status : Dict (Option String)
  pub discovered_date : Dict ℕ
  pub title : Dict String
  pub thumbnail : Dict String
  pub published_at : Dict String
  pub discovered_at : Dict String

unfoldable pub topic_for : List String → String → Dict String → String
unfolding topic_or_other lookup
topic_for topic_ids video_id topics = topic_or_other topic_ids (lookup video_id topics)

unfoldable pub content_type_for : String → Dict (Option String) → Option String
unfolding valid_or_none lookup
content_type_for video_id d = valid_or_none valid_content_types (get_optional video_id d)

unfoldable pub live_status_for : String → Dict (Option String) → Option String
unfolding valid_or_none lookup
live_status_for video_id d = valid_or_none valid_live_statuses (get_optional video_id d)

unfoldable pub anchor_from_gain : ℕ → Option ℤ → Option ℤ
unfolding ◌-ℤ◌
anchor_from_gain count none = none
anchor_from_gain count (some gain) = some (pos count -ℤ gain)

-- `none` where `gains[row.video_id]` raises KeyError.
unfoldable pub anchor_view_counts_for : HistoryRow → Dict Gains → Option (Period → Option ℤ)
unfolding anchor_from_gain lookup
anchor_view_counts_for row gains = elim (lookup row.video_id gains) [
  | none ↦ none
  | some g ↦ some (λ p. anchor_from_gain row.view_count (g p))
]

unfoldable pub catalog_row :
    List String → String → VideoInfo → HistoryRow → (Period → Option ℤ) → VideoRankingRow
unfolding topic_for content_type_for live_status_for lookup
catalog_row topic_ids creator_id info row anchors = record {
  video_id = row.video_id;
  creator_id = creator_id;
  topic = topic_for topic_ids row.video_id info.topic;
  content_type = content_type_for row.video_id info.content_type;
  live_status = live_status_for row.video_id info.live_status;
  current_view_count = row.view_count;
  anchor_view_counts = anchors;
  title = lookup row.video_id info.title;
  thumbnail_url = lookup row.video_id info.thumbnail;
  published_at = lookup row.video_id info.published_at;
  discovered_at = lookup row.video_id info.discovered_at;
}

-- The loop over the sorted rows; `none` where a lookup of the gains raises.
unfoldable pub catalog_rows :
    List String → String → VideoInfo → Dict Gains → List HistoryRow → Option (List VideoRankingRow)
unfolding catalog_row anchor_view_counts_for
catalog_rows topic_ids creator_id info gains [] = some []
catalog_rows topic_ids creator_id info gains (row ∷ rows) = do
  anchors ← anchor_view_counts_for row gains
  rest ← catalog_rows topic_ids creator_id info gains rows
  some (catalog_row topic_ids creator_id info row anchors ∷ rest)

abbrev pub of_creator : String → List HistoryRow → List HistoryRow
of_creator creator_id rows = keep (λ row. str_eq row.creator_id creator_id) rows

abbrev pub before_by_id : HistoryRow → HistoryRow → Bool
before_by_id a b = text_le a.video_id b.video_id

unfoldable pub build_creator_video_catalog :
    List String
    → List HistoryRow
    → (Period → List HistoryRow)
    → String
    → ℕ
    → VideoInfo
    → Option (List VideoRankingRow)
unfolding catalog_rows exact_gains sorted
build_creator_video_catalog topic_ids today_rows anchor_rows creator_id report_date info =
    let own = of_creator creator_id today_rows in
    let gains =
      exact_gains own (λ p. of_creator creator_id (anchor_rows p)) report_date
        info.discovered_date in
    catalog_rows topic_ids creator_id info gains (sorted before_by_id own)
