-- ===== src/Ranking/Reducer.antt =====
-- src/analytics/ranking_reducer.py: the Lambda that renews the execution lock, builds each
-- creator's video ranking and marks the day complete or failed. The stores are parameters: a read
-- that raises gives `none`. discovered_dates_by_video is of src/tracking/tracking_manifest.py.
use yobi_analytics.Prelude.{
  ℕ, zero, suc, ◌-◌, Bool, true, false, Option, none, some, List, [], ◌∷◌, ◌++◌, map, Dict, lookup,
  insert, keep, String, if◌then◌else◌,
}
use yobi_analytics.Prelude.Optional.{◌>>=◌}
use yobi_analytics.HistoryWorker.Collect.{history_shard_count}
use yobi_analytics.HistoryWorker.Records.{HistoryRow}
use yobi_analytics.Ranking.VideoCatalog.{
  Period, day, week, month, days_of, VideoInfo, VideoRankingRow, topic_or_other, valid_or_none,
  valid_content_types, valid_live_statuses, unknown_discovered_date, build_creator_video_catalog,
}
use yobi_analytics.Ranking.VideoRanking.{PersistedRow, serialize_row}

-- What the reducer reads of a manifest entry.
pub record CatalogEntry : Type 0 where
  pub video_id : String
  pub active : Bool
  pub topic : Option String
  pub content_type : Option String
  pub live_status : Option String
  pub title : Option String
  pub thumbnail_url : Option String
  pub published_at : Option String
  pub discovered_at : Option String

-- What the configured bucket holds, TOPIC_IDS, and the date that a text parses to; `accepts` says
-- whether the write of a creator's result succeeds.
pub record Sources : Type 0 where
  pub read_daily_shard : ℕ → ℕ → Option (List HistoryRow)
  pub read_shard : ℕ → Option (List CatalogEntry)
  pub topic_ids : List String
  pub date_of : String → Option ℕ
  pub accepts : String → Bool

pub record VideoRankingResult : Type 0 where
  pub report_date : ℕ
  pub creator_id : String
  pub generated_at : String
  pub videos : List PersistedRow

-- None for a creator without videos.
unfoldable pub build_video_ranking_result :
    ℕ → String → String → List VideoRankingRow → Option VideoRankingResult
unfolding serialize_row
build_video_ranking_result report_date creator_id generated_at [] = none
build_video_ranking_result report_date creator_id generated_at (row ∷ rows) = some (record {
  report_date = report_date;
  creator_id = creator_id;
  generated_at = generated_at;
  videos = map serialize_row (row ∷ rows);
})

-- What the loop over the shards has read.
pub record Read : Type 0 where
  pub today : List HistoryRow
  pub anchors : Period → List HistoryRow
  pub entries : List CatalogEntry

abbrev pub by_period :
    List HistoryRow → List HistoryRow → List HistoryRow → Period → List HistoryRow
by_period d w m day = d
by_period d w m week = w
by_period d w m month = m

module _ (src : Sources) (report_date : ℕ) where
  -- One round of the loop; `none` where a read raises.
  unfoldable pub read_round : ℕ → Read → Option Read
  read_round shard acc = do
    today ← src.read_daily_shard report_date shard
    d ← src.read_daily_shard (report_date - days_of day) shard
    w ← src.read_daily_shard (report_date - days_of week) shard
    m ← src.read_daily_shard (report_date - days_of month) shard
    entries ← src.read_shard shard
    some (record {
      today = acc.today ++ today;
      anchors = λ p. acc.anchors p ++ by_period d w m p;
      entries = acc.entries ++ keep (λ e. e.active) entries;
    })

  -- The rounds from one shard on, as many as are given.
  unfoldable pub read_rounds : ℕ → ℕ → Read → Option Read
  unfolding read_round
  read_rounds shard zero acc = some acc
  read_rounds shard (suc n) acc = do acc' ← read_round shard acc; read_rounds (suc shard) n acc'

  unfoldable pub read_all : Option Read
  unfolding read_rounds
  read_all =
      read_rounds 0 history_shard_count (record { today = []; anchors = λ _. []; entries = [] })

-- `{entry.video_id: value(entry) for entry in entries}`
unfoldable pub by_video_id : {V : Type 0} → (CatalogEntry → V) → List CatalogEntry → Dict V → Dict V
unfolding insert
by_video_id value [] d = d
by_video_id value (e ∷ entries) d = by_video_id value entries (insert e.video_id (value e) d)

abbrev insert_some : String → Option String → Dict String → Dict String
insert_some k none d = d
insert_some k (some v) d = insert k v d

-- The same for the entries whose value is not None.
unfoldable pub given_by_video :
    (CatalogEntry → Option String) → List CatalogEntry → Dict String → Dict String
unfolding insert
given_by_video value [] d = d
given_by_video value (e ∷ entries) d =
    given_by_video value entries (insert_some e.video_id (value e) d)

abbrev entry_date : (String → Option ℕ) → Option String → Option ℕ
entry_date date_of none = some unknown_discovered_date
entry_date date_of (some text) = date_of text

-- `none` where a text does not parse.
unfoldable pub discovered_dates_by_video :
    (String → Option ℕ) → List CatalogEntry → Dict ℕ → Option (Dict ℕ)
unfolding insert
discovered_dates_by_video date_of [] d = some d
discovered_dates_by_video date_of (e ∷ entries) d = do
  found ← entry_date date_of e.discovered_at
  discovered_dates_by_video date_of entries (insert e.video_id found d)

unfoldable pub info_of : Sources → List CatalogEntry → Dict ℕ → VideoInfo
unfolding by_video_id given_by_video topic_or_other valid_or_none
info_of src entries dates = record {
  topic = by_video_id (λ e. topic_or_other src.topic_ids e.topic) entries [];
  content_type = by_video_id (λ e. valid_or_none valid_content_types e.content_type) entries [];
  live_status = by_video_id (λ e. valid_or_none valid_live_statuses e.live_status) entries [];
  discovered_date = dates;
  title = given_by_video (λ e. e.title) entries [];
  thumbnail = given_by_video (λ e. e.thumbnail_url) entries [];
  published_at = given_by_video (λ e. e.published_at) entries [];
  discovered_at = given_by_video (λ e. e.discovered_at) entries [];
}

abbrev pub rows_or_empty : Option (List HistoryRow) → List HistoryRow
rows_or_empty none = []
rows_or_empty (some rows) = rows

-- `rows_by_creator.setdefault(row.creator_id, []).append(row)` for each row.
unfoldable pub rows_by_creator : List HistoryRow → Dict (List HistoryRow) → Dict (List HistoryRow)
unfolding insert lookup
rows_by_creator [] d = d
rows_by_creator (row ∷ rows) d =
    rows_by_creator rows
      (insert row.creator_id (rows_or_empty (lookup row.creator_id d) ++ (row ∷ [])) d)

-- The write of one creator's result: whether the loop goes on, and what was put.
unfoldable pub write_result : Sources → Option VideoRankingResult → Bool × List VideoRankingResult
write_result src none = (true, [])
write_result src (some result) =
    if src.accepts result.creator_id then (true, result ∷ []) else (false, [])

module _ (src : Sources) (report_date : ℕ) (generated_at : String) (info : VideoInfo)
    (anchors : Period → List HistoryRow) where
  abbrev pub creator_result : String → List HistoryRow → Option (Option VideoRankingResult)
  creator_result creator_id rows = do
    catalog ← build_creator_video_catalog src.topic_ids rows anchors creator_id report_date info
    some (build_video_ranking_result report_date creator_id generated_at catalog)

  abbrev pub put_then :
      Bool × List VideoRankingResult → List VideoRankingResult → List VideoRankingResult
  put_then (false, put) rest = put
  put_then (true, put) rest = put ++ rest

  abbrev pub write_or_stop :
      Option (Option VideoRankingResult) → List VideoRankingResult → List VideoRankingResult
  write_or_stop none rest = []
  write_or_stop (some result) rest = put_then (write_result src result) rest

  -- The loop over the creators: what it puts before it ends or raises.
  unfoldable pub write_creators : Dict (List HistoryRow) → List VideoRankingResult
  unfolding build_creator_video_catalog build_video_ranking_result write_result
  write_creators [] = []
  write_creators ((creator_id, rows) ∷ groups) =
      write_or_stop (creator_result creator_id rows) (write_creators groups)

abbrev pub put_read : Sources → ℕ → String → Read → Option (Dict ℕ) → List VideoRankingResult
put_read src report_date generated_at acc none = []
put_read src report_date generated_at acc (some dates) =
    write_creators src report_date generated_at (info_of src acc.entries dates) acc.anchors
      (rows_by_creator acc.today [])

abbrev pub put_all : Sources → ℕ → String → Option Read → List VideoRankingResult
put_all src report_date generated_at none = []
put_all src report_date generated_at (some acc) =
    put_read src report_date generated_at acc (discovered_dates_by_video src.date_of acc.entries [])

-- The results that a run puts; whatever raises is caught, with what was put before it in place. No
-- bucket is configured for `none`.
unfoldable pub build_and_persist_video_rankings :
    Option Sources → ℕ → String → List VideoRankingResult
unfolding write_creators read_all info_of rows_by_creator discovered_dates_by_video
build_and_persist_video_rankings none report_date generated_at = []
build_and_persist_video_rankings (some src) report_date generated_at =
    put_all src report_date generated_at (read_all src report_date)
