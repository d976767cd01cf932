-- ===== src/Ranking/Baseline.antt =====
-- src/analytics/video_ranking.py: the anchors that are persisted against the gains that they are
-- read back as.
use yobi_analytics.Prelude.{
  ℕ, ◌≡◌, refl, sym, ap, subst, Option, none, some, List, [], ◌∷◌, map, Dict, lookup, String, All,
  All-map_pred, All-keep,
}
use mathlib.Core.Option.{some-injective}
use yobi_analytics.Prelude.Integers.{ℤ, pos, ◌-ℤ◌, sub-sub}
use yobi_analytics.Prelude.Sort.{All-sorted}
use yobi_analytics.Ranking.Order.{ranked, precedes}
use yobi_analytics.Ranking.Built.{IsAnchored, IsBuilt, own_gains, catalog-IsBuilt}
use yobi_analytics.Ranking.Observed.{numbered-All_rows}
use yobi_analytics.HistoryWorker.Records.{HistoryRow}
use yobi_analytics.Ranking.VideoCatalog.{
  Period, Gains, VideoRankingRow, VideoInfo, anchor_from_gain, build_creator_video_catalog,
}
use yobi_analytics.Ranking.VideoViews.{row_passes, filter_rows-passes}
use yobi_analytics.Ranking.VideoRanking.{
  PersistedRow, serialize_row, Scopes, RankedVideo, Growth, growth_metric, filter_rows, attach,
  with_anchor, growth_of_row, growth_output_row, output_row, rank_filtered, rank_video_rows,
}

-- A persisted row reads as the row that it was made of.
abbrev Persisted : Dict Gains → Period → PersistedRow → Type 0
Persisted gains p row =
    (g : Gains) × (lookup row.video_id gains ≡ some g)
    × (row.anchor_view_count p ≡ anchor_from_gain row.current_view_count (g p))

abbrev Candidate : Dict Gains → Period → PersistedRow × ℤ → Type 0
Candidate gains p c =
    (g : Gains) × (lookup (c.0).video_id gains ≡ some g) × (g p ≡ some (growth_of_row c))

-- The growth that a ranked video shows is the gain that is recorded for it.
abbrev pub ShowsGain : Dict Gains → Period → RankedVideo → Type 0
ShowsGain gains p video =
    (g : Gains) × (shown : Growth) × (lookup video.video_id gains ≡ some g)
    × (video.growth ≡ some shown)
    × (g p ≡ some shown.absolute_growth)

gain_back :
    (count : ℕ) (gain : Option ℤ) (anchor : ℤ)
    → some anchor ≡ anchor_from_gain count gain
    → gain ≡ some (pos count -ℤ anchor)
unfolding anchor_from_gain
gain_back count none anchor h = absurd cc
gain_back count (some gain) anchor h =
    ap some (sym (rw (some-injective _ _ h) (sub-sub count gain)))

attach-Candidate :
    (gains : Dict Gains) (p : Period) (row : PersistedRow) (anchor : Option ℤ)
    (rest : List (PersistedRow × ℤ)) (g : Gains)
    → lookup row.video_id gains ≡ some g
    → anchor ≡ anchor_from_gain row.current_view_count (g p)
    → All (Candidate gains p) rest
    → All (Candidate gains p) (attach row anchor rest)
attach-Candidate gains p row none rest g e h a = a
attach-Candidate gains p row (some anchor) rest g e h a =
    ((g, e, gain_back row.current_view_count (g p) anchor h), a)

with_anchor-Candidate :
    (gains : Dict Gains) (p : Period) (rows : List PersistedRow)
    → All (Persisted gains p) rows
    → All (Candidate gains p) (with_anchor p rows)
unfolding with_anchor
with_anchor-Candidate gains p [] h = tt
with_anchor-Candidate gains p (row ∷ rows) h =
    let (g, e, a) = h.0 in
    attach-Candidate gains p row (row.anchor_view_count p) (with_anchor p rows) g e a
      (with_anchor-Candidate gains p rows h.1)

filter_rows-All :
    (P : PersistedRow → Type 0) (s : Scopes) (rows : List PersistedRow)
    → All P rows
    → All P (filter_rows s rows)
filter_rows-All P s rows h =
    subst (All P) (sym (filter_rows-passes s rows))
      (All-keep P (row_passes s) rows (All-map_pred (λ x p e. p) rows h))

serialized :
    (gains : Dict Gains) (p : Period) (rows : List VideoRankingRow)
    → All (IsAnchored gains) rows
    → All (Persisted gains p) (map serialize_row rows)
unfolding serialize_row
serialized gains p [] h = tt
serialized gains p (row ∷ rows) h =
    let (g, e, a) = h.0 in ((g, e, a p), serialized gains p rows h.1)

ranked-ShowsGain :
    (gains : Dict Gains) (p : Period) (rows : List PersistedRow)
    → All (Persisted gains p) rows
    → All (ShowsGain gains p) (rank_filtered (growth_metric p) rows)
unfolding rank_filtered growth_output_row output_row ranked
ranked-ShowsGain gains p rows h =
    numbered-All_rows (Candidate gains p) (ShowsGain gains p) growth_output_row 1 _
      (λ m c f. let (g, e, t) = f in (g, _, e, refl, t))
      (All-sorted (precedes growth_of_row (λ c. (c.0).video_id)) (Candidate gains p) _
        (with_anchor-Candidate gains p rows h))

shown_by :
    (gains : Dict Gains) (p : Period) (s : Scopes) (built : Option (List VideoRankingRow))
    → IsBuilt gains built
    → (rows : List VideoRankingRow) × (built ≡ some rows)
      × All (ShowsGain gains p) (rank_video_rows (map serialize_row rows) (growth_metric p) s)
unfolding rank_video_rows
shown_by gains p s none h = absurd h
shown_by gains p s (some rows) h = (
  rows,
  refl,
  ranked-ShowsGain gains p (filter_rows s (map serialize_row rows))
      (filter_rows-All (Persisted gains p) s _ (serialized gains p rows h)),
)

-- Whatever the scopes, a video in the growth ranking of a period over the persisted rows of a
-- catalog shows as its growth the gain that exact_gains computed for it when the catalog was built,
-- through the anchor that was persisted in between; a video without a gain for the period is not
-- in the ranking.
pub ranked_growth_is_recorded_gain :
    (topic_ids : List String) (today_rows : List HistoryRow)
    (anchor_rows : Period → List HistoryRow) (creator_id : String) (report_date : ℕ)
    (info : VideoInfo) (p : Period) (s : Scopes)
    → (rows : List VideoRankingRow) × (build_creator_video_catalog topic_ids today_rows anchor_rows
          creator_id report_date info
        ≡ some rows)
      × All
          (ShowsGain (own_gains today_rows anchor_rows creator_id report_date info) p)
          (rank_video_rows (map serialize_row rows) (growth_metric p) s)
ranked_growth_is_recorded_gain topic_ids today_rows anchor_rows creator_id report_date info p s =
    shown_by (own_gains today_rows anchor_rows creator_id report_date info) p s _
      (catalog-IsBuilt topic_ids today_rows anchor_rows creator_id report_date info)
