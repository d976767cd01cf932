-- ===== src/Ranking/CatalogVideos.antt =====
-- build_creator_video_catalog of src/analytics/video_ranking.py: that a catalog is built, and of
-- which videos.
use yobi_analytics.Prelude.{ℕ, ◌≡◌, refl, ap, Option, none, some, List, [], ◌∷◌, map, Dict, String}
use yobi_analytics.Prelude.Optional.{◌>>=◌}
use yobi_analytics.Prelude.Integers.{ℤ}
use yobi_analytics.Prelude.Sort.{sorted}
use yobi_analytics.HistoryWorker.Records.{HistoryRow}
use yobi_analytics.Ranking.VideoCatalog.{
  Period, Gains, VideoInfo, VideoRankingRow, anchor_view_counts_for, catalog_row, catalog_rows,
  of_creator, before_by_id, build_creator_video_catalog,
}
use yobi_analytics.Ranking.Built.{IsBuilt, catalog-IsBuilt}

abbrev pub row_ids : List HistoryRow → List String
row_ids rows = map (λ row. row.video_id) rows

-- The catalog, where there is one, has these videos in this order.
abbrev IdsIfBuilt : List String → Option (List VideoRankingRow) → Type 0
IdsIfBuilt ids none = Unit
IdsIfBuilt ids (some catalog) = map (λ row. row.video_id) catalog ≡ ids

module _ (topic_ids : List String) (creator_id : String) (info : VideoInfo)
    (gains : Dict Gains) where
  row-IdsIfBuilt :
      (row : HistoryRow) (ids : List String) (anchors : Option (Period → Option ℤ))
      (rest : Option (List VideoRankingRow))
      → IdsIfBuilt ids rest
      → IdsIfBuilt (row.video_id ∷ ids) (
          anchors >>= λ a.
          rest >>= λ rows. some (catalog_row topic_ids creator_id info row a ∷ rows))
  unfolding catalog_row
  row-IdsIfBuilt row ids none rest h = tt
  row-IdsIfBuilt row ids (some a) none h = tt
  row-IdsIfBuilt row ids (some a) (some rows) h = ap (λ xs. row.video_id ∷ xs) h

  catalog_rows-IdsIfBuilt :
      (rows : List HistoryRow)
      → IdsIfBuilt (row_ids rows) (catalog_rows topic_ids creator_id info gains rows)
  unfolding catalog_rows
  catalog_rows-IdsIfBuilt [] = refl
  catalog_rows-IdsIfBuilt (row ∷ rows) =
      row-IdsIfBuilt row (row_ids rows) (anchor_view_counts_for row gains)
        (catalog_rows topic_ids creator_id info gains rows) (catalog_rows-IdsIfBuilt rows)

-- A catalog is always built, and has the creator's videos of the day, sorted by id.
built_ids :
    (gains : Dict Gains) (ids : List String) (built : Option (List VideoRankingRow))
    → IsBuilt gains built
    → IdsIfBuilt ids built
    → (catalog : List VideoRankingRow) × (built ≡ some catalog)
      × (map (λ row. row.video_id) catalog ≡ ids)
built_ids gains ids none h e = absurd h
built_ids gains ids (some catalog) h e = (catalog, refl, e)

pub catalog_has_videos :
    (topic_ids : List String) (today_rows : List HistoryRow)
    (anchor_rows : Period → List HistoryRow) (creator_id : String) (report_date : ℕ)
    (info : VideoInfo)
    → (catalog : List VideoRankingRow) × (build_creator_video_catalog topic_ids today_rows
          anchor_rows creator_id report_date info
        ≡ some catalog)
      × (map (λ row. row.video_id) catalog
          ≡ row_ids (sorted before_by_id (of_creator creator_id today_rows)))
unfolding build_creator_video_catalog
catalog_has_videos topic_ids today_rows anchor_rows creator_id report_date info =
    built_ids _ _ _ (catalog-IsBuilt topic_ids today_rows anchor_rows creator_id report_date info) (
      catalog_rows-IdsIfBuilt topic_ids creator_id info _
        (sorted before_by_id (of_creator creator_id today_rows)))
