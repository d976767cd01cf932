-- ===== src/Ranking/Built.antt =====
-- src/analytics/video_ranking.py: the lookup of a row's gains never fails, and each row's anchors
-- are its count less its gains.
use yobi_analytics.Prelude.{
  ℕ, ◌≡◌, refl, sym, subst, true, Option, none, some, List, [], ◌∷◌, Dict, lookup, insert, has,
  String, inl, inr, Option-cases, lookup-insert, All, eq_refl, arith,
}
use mathlib.Core.Bool.{true≢false}
use yobi_analytics.Prelude.Optional.{◌>>=◌}
use yobi_analytics.Prelude.Integers.{ℤ}
use yobi_analytics.Prelude.Sort.{sorted, All-sorted}
use yobi_analytics.HistoryWorker.Records.{HistoryRow}
use yobi_analytics.Ranking.VideoCatalog.{
  Period, Gains, gains_of, insert_gains, exact_gains, VideoRankingRow, VideoInfo, anchor_from_gain,
  anchor_view_counts_for, catalog_row, catalog_rows, of_creator, before_by_id,
  build_creator_video_catalog,
}

insert_gains-has :
    (gains : HistoryRow → Gains) (k : String) (rows : List HistoryRow) (d : Dict Gains)
    → has k d ≡ true
    → has k (insert_gains gains rows d) ≡ true
unfolding insert_gains
insert_gains-has gains k [] d h = h
insert_gains-has gains k (row ∷ rows) d h =
    insert_gains-has gains k rows (insert row.video_id (gains row) d)
      (ground (arith, lookup-insert row.video_id k (gains row) d))

insert_gains-covers :
    (gains : HistoryRow → Gains) (rows : List HistoryRow) (d : Dict Gains)
    → All (λ row. has row.video_id (insert_gains gains rows d) ≡ true) rows
unfolding insert_gains
insert_gains-covers gains [] d = tt
insert_gains-covers gains (row ∷ rows) d = (
  insert_gains-has gains row.video_id rows (insert row.video_id (gains row) d)
      (rw (lookup-insert row.video_id row.video_id (gains row) d, eq_refl row.video_id) refl),
  insert_gains-covers gains rows (insert row.video_id (gains row) d),
)

-- The row's anchor of each period is its count less the gain that is recorded for its video.
abbrev pub IsAnchored : Dict Gains → VideoRankingRow → Type 0
IsAnchored gains row =
    (g : Gains) × (lookup row.video_id gains ≡ some g)
    × ((p : Period) → row.anchor_view_counts p ≡ anchor_from_gain row.current_view_count (g p))

-- A catalog is built and all its rows are anchored.
abbrev pub IsBuilt : Dict Gains → Option (List VideoRankingRow) → Type 0
IsBuilt gains none = ⊥
IsBuilt gains (some rows) = All (IsAnchored gains) rows

module _ (topic_ids : List String) (creator_id : String) (info : VideoInfo)
    (gains : Dict Gains) where
  abbrev row_then :
      HistoryRow
      → Option (List VideoRankingRow)
      → (Period → Option ℤ)
      → Option (List VideoRankingRow)
  row_then row rest anchors =
      rest >>= λ rows. some (catalog_row topic_ids creator_id info row anchors ∷ rows)

  row-IsBuilt :
      (row : HistoryRow) (g : Gains) (rest : Option (List VideoRankingRow))
      → lookup row.video_id gains ≡ some g
      → IsBuilt gains rest
      → IsBuilt gains (row_then row rest (λ p. anchor_from_gain row.view_count (g p)))
  unfolding catalog_row
  row-IsBuilt row g none e h = h
  row-IsBuilt row g (some rows) e h = ((g, e, λ p. refl), h)

  found_gains :
      (row : HistoryRow) (g : Gains)
      → lookup row.video_id gains ≡ some g
      → anchor_view_counts_for row gains ≡ some (λ p. anchor_from_gain row.view_count (g p))
  unfolding anchor_view_counts_for
  found_gains row g e = rw (e, anchor_view_counts_for) refl

  catalog_rows-IsBuilt :
      (rows : List HistoryRow)
      → All (λ row. has row.video_id gains ≡ true) rows
      → IsBuilt gains (catalog_rows topic_ids creator_id info gains rows)
  unfolding catalog_rows
  catalog_rows-IsBuilt [] h = tt
  catalog_rows-IsBuilt (row ∷ rows) h = elim (Option-cases (lookup row.video_id gains)) [
    | inl e ↦ absurd (true≢false (sym (rw e at (h.0))))
    | inr (g, e) ↦
        subst
          (λ o.
            IsBuilt gains (o >>= row_then row (catalog_rows topic_ids creator_id info gains rows)))
          (sym (found_gains row g e)) (row-IsBuilt row g _ e (catalog_rows-IsBuilt rows h.1))
  ]

-- The day's rows of the creator and the gains that the catalog records for them.
abbrev pub own_gains :
    List HistoryRow → (Period → List HistoryRow) → String → ℕ → VideoInfo → Dict Gains
own_gains today_rows anchor_rows creator_id report_date info =
    exact_gains (of_creator creator_id today_rows) (λ p. of_creator creator_id (anchor_rows p))
      report_date info.discovered_date

pub catalog-IsBuilt :
    (topic_ids : List String) (today_rows : List HistoryRow)
    (anchor_rows : Period → List HistoryRow) (creator_id : String) (report_date : ℕ)
    (info : VideoInfo)
    → IsBuilt
        (own_gains today_rows anchor_rows creator_id report_date info)
        (build_creator_video_catalog topic_ids today_rows anchor_rows creator_id report_date info)
unfolding build_creator_video_catalog exact_gains
catalog-IsBuilt topic_ids today_rows anchor_rows creator_id report_date info =
    let own = of_creator creator_id today_rows in
    let gains = own_gains today_rows anchor_rows creator_id report_date info in
    catalog_rows-IsBuilt topic_ids creator_id info gains (sorted before_by_id own) (
      All-sorted before_by_id (λ row. has row.video_id gains ≡ true) own
        (insert_gains-covers
          (gains_of (λ p. of_creator creator_id (anchor_rows p)) report_date info.discovered_date)
          own []))
