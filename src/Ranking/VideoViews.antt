-- ===== src/Ranking/VideoViews.antt =====
-- rank_video_rows of src/analytics/video_ranking.py: filtering before the ranking against filtering
-- the ranking.
use yobi_analytics.Prelude.{
  ℕ, ◌≡◌, refl, sym, ap, ◌∙◌, Bool, true, false, not, ◌&&◌, Option, none, some, List, [], ◌∷◌, keep,
  String, str_eq, inl, inr, Bool-cases, if◌then◌else◌, arith,
}
use yobi_analytics.Prelude.Integers.{ℤ, pos}
use yobi_analytics.Prelude.SortKeep.{numbered}
use yobi_analytics.Ranking.Order.{ranked}
use yobi_analytics.Ranking.Views.{view-ranked}
use yobi_analytics.Ranking.VideoCatalog.{Period}
use yobi_analytics.Ranking.VideoRanking.{
  PersistedRow, Metric, Scopes, RankedVideo, equals, is_active_status, row_matches_live_status,
  filter_rows, growth_of_row, keep_unless, attach, total_metric, growth_metric, with_anchor,
  rank_filtered, rank_video_rows, output_row, total_output_row, growth_output_row,
}

-- The liveStatus scope as a test of the status.
abbrev pub status_passes : String → Option String → Bool
status_passes scope status =
    if str_eq scope "all"
    then true
    else if str_eq scope "archived"
    then not (is_active_status status)
    else equals status scope

-- All the scopes as one test of a row's topic, content type and status.
abbrev pub passes : Scopes → String → Option String → Option String → Bool
passes s topic content_type live_status =
    (if str_eq s.topic "all" then true else str_eq topic s.topic)
    && ((if str_eq s.content_type "all" then true else equals content_type s.content_type)
        && ((if not s.exclude_shorts then true else not (equals content_type "short"))
            && status_passes s.live_status live_status))

abbrev pub row_passes : Scopes → PersistedRow → Bool
row_passes s row = passes s row.topic row.content_type row.live_status

keep_all : {A : Type 0} (xs : List A) → keep (λ x. true) xs ≡ xs
keep_all [] = refl
keep_all (x ∷ xs) = ap (λ ys. x ∷ ys) (keep_all xs)

keep-keep :
    {A : Type 0} (p q : A → Bool) (xs : List A) → keep q (keep p xs) ≡ keep (λ x. p x && q x) xs
keep-keep p q [] = refl
keep-keep p q (x ∷ xs) = ground (arith, keep-keep p q xs)

-- A filter that may be skipped is a filter by one test.
keep_unless-keep :
    (skip : Bool) (p : PersistedRow → Bool) (rows : List PersistedRow)
    → keep_unless skip p rows ≡ keep (λ x. if skip then true else p x) rows
keep_unless-keep true p rows = sym (keep_all rows)
keep_unless-keep false p rows = refl

keep_unless-narrows :
    (skip : Bool) (t p : PersistedRow → Bool) (rows kept : List PersistedRow)
    → kept ≡ keep p rows
    → keep_unless skip t kept ≡ keep (λ x. p x && (if skip then true else t x)) rows
keep_unless-narrows skip t p rows kept h =
    keep_unless-keep skip t kept
    ∙ ap (keep (λ x. if skip then true else t x)) h
    ∙ keep-keep p (λ x. if skip then true else t x) rows

keep-agree :
    {A : Type 0} (p q : A → Bool) (xs : List A) → ((x : A) → p x ≡ q x) → keep p xs ≡ keep q xs
keep-agree p q [] h = refl
keep-agree p q (x ∷ xs) h = rw (h x, keep-agree p q xs h) refl

status_same :
    (row : PersistedRow) (scope : String)
    → (if str_eq scope "all" then true else row_matches_live_status row scope)
      ≡ status_passes scope row.live_status
unfolding row_matches_live_status
status_same row scope = ground arith

conjuncts : (a b c d : Bool) → (((a && b) && c) && d) ≡ (a && (b && (c && d)))
conjuncts a b c d = ground arith

pub filter_rows-passes :
    (s : Scopes) (rows : List PersistedRow) → filter_rows s rows ≡ keep (row_passes s) rows
unfolding filter_rows
filter_rows-passes s rows =
    let topic =
      λ (row : PersistedRow). if str_eq s.topic "all" then true else str_eq row.topic s.topic in
    let kind = λ (row : PersistedRow).
      if str_eq s.content_type "all" then true else equals row.content_type s.content_type in
    let shorts = λ (row : PersistedRow).
      if not s.exclude_shorts then true else not (equals row.content_type "short") in
    let status = λ (row : PersistedRow).
      if str_eq s.live_status "all" then true else row_matches_live_status row s.live_status in
    let by_topic = keep_unless-keep (str_eq s.topic "all") (λ row. str_eq row.topic s.topic) rows in
    let by_kind =
      keep_unless-narrows (str_eq s.content_type "all")
        (λ row. equals row.content_type s.content_type) topic rows _ by_topic in
    let by_shorts =
      keep_unless-narrows (not s.exclude_shorts) (λ row. not (equals row.content_type "short"))
        (λ row. topic row && kind row) rows _ by_kind in
    keep_unless-narrows (str_eq s.live_status "all")
      (λ row. row_matches_live_status row s.live_status)
      (λ row. (topic row && kind row) && shorts row) rows _ by_shorts
    ∙ keep-agree (λ row. ((topic row && kind row) && shorts row) && status row) (row_passes s) rows
        (λ row.
          conjuncts (topic row) (kind row) (shorts row) (status row)
          ∙ rw (status_same row s.live_status) refl)

attach-keep :
    (q : PersistedRow → Bool) (row : PersistedRow) (anchor : Option ℤ)
    (rest : List (PersistedRow × ℤ))
    → keep (λ c. q c.0) (attach row anchor rest)
      ≡ (if q row then attach row anchor (keep (λ c. q c.0) rest) else keep (λ c. q c.0) rest)
attach-keep q row none rest = ground arith
attach-keep q row (some anchor) rest = ground arith

keep-with_anchor :
    (q : PersistedRow → Bool) (p : Period) (rows : List PersistedRow)
    → keep (λ c. q c.0) (with_anchor p rows) ≡ with_anchor p (keep q rows)
unfolding with_anchor
keep-with_anchor q p [] = refl
keep-with_anchor q p (row ∷ rows) =
    attach-keep q row (row.anchor_view_count p) (with_anchor p rows) ∙ elim (Bool-cases (q row)) [
      | inl e ↦ rw (e, keep-with_anchor q p rows) refl
      | inr e ↦ rw e (keep-with_anchor q p rows)
    ]

-- The row of a ranking with another rank.
abbrev pub with_rank : ℕ → RankedVideo → RankedVideo
with_rank rank video = record video { rank = rank }

-- For each metric, the videos that pass the scopes, ranked, are the whole ranking with the videos
-- that do not pass left out and the rest numbered from 1: a video that a scope drops takes no rank
-- and moves no other video.
pub scopes_rank_alone :
    (rows : List PersistedRow) (metric : Metric) (s : Scopes)
    → rank_video_rows rows metric s
      ≡ numbered with_rank 1
          (keep (λ v. passes s v.topic v.content_type v.live_status) (rank_filtered metric rows))
unfolding rank_video_rows rank_filtered total_output_row growth_output_row output_row
scopes_rank_alone rows total_metric s =
    ap (λ xs. rank_filtered total_metric xs) (filter_rows-passes s rows)
    ∙ sym (
        view-ranked (λ (row : PersistedRow). pos row.current_view_count) (λ row. row.video_id)
          total_output_row with_rank (λ v. passes s v.topic v.content_type v.live_status)
          (row_passes s) rows (λ i x. refl) (λ i j x. refl))
scopes_rank_alone rows (growth_metric p) s =
    ap (λ xs. rank_filtered (growth_metric p) xs) (filter_rows-passes s rows)
    ∙ ap (λ xs. numbered growth_output_row 1 (ranked growth_of_row (λ c. (c.0).video_id) xs))
        (sym (keep-with_anchor (row_passes s) p rows))
    ∙ sym (
        view-ranked growth_of_row (λ c. (c.0).video_id) growth_output_row with_rank
          (λ v. passes s v.topic v.content_type v.live_status) (λ c. row_passes s c.0)
          (with_anchor p rows) (λ i x. refl) (λ i j x. refl))
