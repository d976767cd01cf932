-- ===== src/Ranking/Tests.antt =====
-- Small rosters, days of rows and a bucket of two creators.
use yobi_analytics.Prelude.{
  ℕ, ◌≡◌, ◌≢◌, refl, String, true, false, Option, some, none, List, [], ◌∷◌, map, member, str_eq,
  All, ◌==◌, if◌then◌else◌, keep,
}
use yobi_analytics.Prelude.Integers.{ℤ, pos, negsuc, int_le}
use yobi_analytics.Prelude.SortKeep.{numbered}
use yobi_analytics.ExecutionLock.{is_held_by, acquire_row}
use yobi_analytics.ExecutionLock.Table.{returned}
use yobi_analytics.ExecutionLock.Memory.{Memory, memory}
use yobi_analytics.HistoryWorker.Records.{HistoryRow}
use yobi_analytics.Ranking.Subscribers.{SubscriberRow, Roster}
use yobi_analytics.Ranking.Leaderboards.{
  build_total_subscribers_leaderboard, build_growth_leaderboard, filter_by_organization,
  with_total_rank, with_growth_rank,
}
use yobi_analytics.Ranking.Accounts.{IsAccounted}
use yobi_analytics.Ranking.Placement.{on_total, on_growth, leaderboards_account_for_all}
use yobi_analytics.Ranking.Ordered.{IsRanking, count_from, leaderboards_are_ordered}
use yobi_analytics.Ranking.Observed.{IsObserved, growth_rows_show_counts}
use yobi_analytics.Ranking.Views.{members_of, organization_views_rank_alone}
use yobi_analytics.Ranking.VideoCatalog.{
  Period, day, VideoInfo, VideoRankingRow, build_creator_video_catalog,
}
use yobi_analytics.Ranking.VideoRanking.{
  PersistedRow, Scopes, growth_metric, rank_video_rows, rank_filtered, serialize_row,
}
use yobi_analytics.Ranking.VideoViews.{passes, with_rank, scopes_rank_alone}
use yobi_analytics.Ranking.Built.{own_gains}
use yobi_analytics.Ranking.Baseline.{ShowsGain, ranked_growth_is_recorded_gain}
use yobi_analytics.Ranking.Reducer.{Sources, Read, CatalogEntry, read_all}
use yobi_analytics.Ranking.Handler.{handle, reduce, reducer_puts_under_lease}

abbrev counted : String → ℕ → SubscriberRow
counted id n = record {
  creator_id = id;
  subscriber_count = some n;
  hidden_subscriber_count = false;
}

abbrev concealed : String → SubscriberRow
concealed id = record { creator_id = id; subscriber_count = none; hidden_subscriber_count = true }

abbrev roster : Roster
roster =
    ("a", some "vspo")
    ∷ ("b", some "hololive")
    ∷ ("c", some "hololive")
    ∷ ("d", none)
    ∷ ("e", some "vspo")
    ∷ []

-- "e" is not observed, "x" is not in the roster.
abbrev today : List SubscriberRow
today = counted "a" 100 ∷ counted "b" 120 ∷ concealed "c" ∷ counted "d" 7 ∷ counted "x" 9 ∷ []

abbrev yesterday : List SubscriberRow
yesterday = counted "a" 101 ∷ counted "b" 110 ∷ []

ranks_of_growth :
    map {B = String × ℕ × ℤ}
      (λ r. (r.creator_id, r.rank, r.absolute_growth))
      (build_growth_leaderboard (some roster) yesterday today).0
    ≡ (("b", 1, pos 10) ∷ ("a", 2, negsuc 0) ∷ [])
unfolding build_growth_leaderboard int_le
ranks_of_growth = refl

leaderboards_account_for_all_example :
    let total = build_total_subscribers_leaderboard (some roster) today in
    let growth = build_growth_leaderboard (some roster) yesterday today in
    IsAccounted "c" roster today (on_total "c" total.0) total.1
    × IsAccounted "c" roster today (on_growth "c" growth.0) growth.1
unfolding member
leaderboards_account_for_all_example =
    leaderboards_account_for_all roster today yesterday "c"
      (refl, (refl, (refl, (refl, (refl, tt)))))

organization_views_rank_alone_example :
    let own = members_of "hololive" roster today in
    (filter_by_organization
        (λ r. r.organization)
        with_total_rank
        (build_total_subscribers_leaderboard (some roster) today).0
        "hololive"
      ≡ (build_total_subscribers_leaderboard (some roster) own).0)
    × (filter_by_organization
          (λ r. r.organization)
          with_growth_rank
          (build_growth_leaderboard (some roster) yesterday today).0
          "hololive"
        ≡ (build_growth_leaderboard (some roster) yesterday own).0)
organization_views_rank_alone_example =
    organization_views_rank_alone roster today yesterday "hololive"

leaderboards_are_ordered_example :
    let total = (build_total_subscribers_leaderboard (some roster) today).0 in
    let growth = (build_growth_leaderboard (some roster) yesterday today).0 in
    (map (λ r. r.rank) total ≡ count_from 1 total)
    × IsRanking (λ r. pos r.subscriber_count) (λ r. r.creator_id) total
    × (map (λ r. r.rank) growth ≡ count_from 1 growth)
    × IsRanking (λ r. r.absolute_growth) (λ r. r.creator_id) growth
leaderboards_are_ordered_example = leaderboards_are_ordered (some roster) today yesterday

growth_rows_show_counts_example :
    All
      (λ r.
        IsObserved today yesterday r.creator_id r.current_subscriber_count r.anchor_subscriber_count
          r.absolute_growth)
      (build_growth_leaderboard (some roster) yesterday today).0
growth_rows_show_counts_example = growth_rows_show_counts (some roster) today yesterday

abbrev viewed : String → String → ℕ → HistoryRow
viewed id creator views = record {
  video_id = id;
  creator_id = creator;
  view_count = views;
  observed_at = 0;
  availability_status = "available";
  carried_forward = false;
  content_type = none;
  live_status = none;
}

abbrev day_rows : List HistoryRow
day_rows = viewed "v2" "a" 50 ∷ viewed "w1" "b" 5 ∷ viewed "v1" "a" 40 ∷ []

-- "v1" was seen the day before, "v2" is new.
abbrev anchors : Period → List HistoryRow
anchors day = viewed "v1" "a" 15 ∷ []
anchors _ = []

abbrev no_info : VideoInfo
no_info = record {
  topic = ("v1", "singing") ∷ [];
  content_type = ("v1", some "live") ∷ [];
  live_status = [];
  discovered_date = ("v2", 739200) ∷ [];
  title = [];
  thumbnail = [];
  published_at = [];
  discovered_at = [];
}

abbrev archived : Scopes
archived = record {
  topic = "all";
  content_type = "all";
  live_status = "archived";
  exclude_shorts = true;
}

abbrev persisted : List PersistedRow
unfolding serialize_row
persisted =
    record {
      video_id = "v1";
      creator_id = "a";
      topic = "singing";
      content_type = some "live";
      live_status = some "live";
      current_view_count = 40;
      anchor_view_count = λ _. some (pos 15);
      title = none;
      thumbnail_url = none;
      published_at = none;
      discovered_at = none;
    }
    ∷ record {
      video_id = "v2";
      creator_id = "a";
      topic = "other";
      content_type = none;
      live_status = none;
      current_view_count = 50;
      anchor_view_count = λ _. some (pos 0);
      title = none;
      thumbnail_url = none;
      published_at = none;
      discovered_at = none;
    }
    ∷ []

scopes_rank_alone_example :
    rank_video_rows persisted (growth_metric day) archived
    ≡ numbered with_rank 1 (
        keep
          (λ v. passes archived v.topic v.content_type v.live_status)
          (rank_filtered (growth_metric day) persisted))
scopes_rank_alone_example = scopes_rank_alone persisted (growth_metric day) archived

ranked_growth_is_recorded_gain_example :
    (rows : List VideoRankingRow) × (build_creator_video_catalog
        ("singing" ∷ "other" ∷ [])
        day_rows
        anchors
        "a"
        739200
        no_info
      ≡ some rows)
    × All
        (ShowsGain (own_gains day_rows anchors "a" 739200 no_info) day)
        (rank_video_rows (map serialize_row rows) (growth_metric day) archived)
ranked_growth_is_recorded_gain_example =
    ranked_growth_is_recorded_gain ("singing" ∷ "other" ∷ []) day_rows anchors "a" 739200 no_info
      day archived

abbrev tracked_entry : String → CatalogEntry
tracked_entry id = record {
  video_id = id;
  active = true;
  topic = some "singing";
  content_type = none;
  live_status = none;
  title = none;
  thumbnail_url = none;
  published_at = none;
  discovered_at = some "2024-11-10T00:00:00Z";
}

-- Shard 3 holds the day; the write of "b" fails.
abbrev bucket : Sources
bucket = record {
  read_daily_shard = λ date shard.
      if date == 739200 then if shard == 3 then some day_rows else some [] else some [];
  read_shard = λ shard. if shard == 3 then some (tracked_entry "v1" ∷ []) else some [];
  topic_ids = "singing" ∷ "other" ∷ [];
  date_of = λ _. some 739199;
  accepts = λ creator_id. str_eq creator_id "a";
}

abbrev read_or_none : Option Read → Read
read_or_none none = record { today = []; anchors = λ _. []; entries = [] }
read_or_none (some acc) = acc

abbrev day_read : Read
unfolding read_all
day_read = read_or_none (read_all bucket 739200)

-- The item of another run's lock.
abbrev locked : Memory
unfolding acquire_row
locked = λ _. some (acquire_row "run-1" 1787961600000000 5400)

reducer_puts_under_lease_example :
    let o =
      handle memory
        (λ _. "2026-08-29")
        (some bucket)
        1787961700000000
        "now"
        (reduce 739857 "run-2")
        locked in
    (o.puts ≡ []) × (o.result ≢ returned) × (o.state "2026-08-29" ≡ locked "2026-08-29")
unfolding is_held_by locked
reducer_puts_under_lease_example =
    reducer_puts_under_lease memory (λ _. "2026-08-29") (some bucket) 1787961700000000 "now" 739857
      "run-2" locked refl
