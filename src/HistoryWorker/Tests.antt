-- ===== src/HistoryWorker/Tests.antt =====
-- A shard of two videos, collected and collected again.
use Prim.Native.String.{len}
use yobi_analytics.Prelude.{
  ℕ, ◌≡◌, ◌||◌, refl, String, Bool, true, false, Option, some, none, List, [], ◌∷◌, map, arith,
  lookup, insert, member, eq_iff,
}
use yobi_analytics.TrackingSchedule.Tests.{fractions}
use yobi_analytics.TrackingSchedule.{cold, select_due_video_ids, is_due_today}
use yobi_analytics.Prelude.Sort.{sorted}
use yobi_analytics.Prelude.TextOrder.{text_le}
use yobi_analytics.HistoryWorker.Records.{upload, HistoryRow, Video, ManifestEntry, PublishedAt}
use yobi_analytics.HistoryWorker.Replay.{IsKeyed}
use yobi_analytics.HistoryWorker.Collect.{
  Fetched, Stores, Result, ok, raised, ShardCollectionResult, collect_history_shard, ids_to_fetch,
  carried, due_set,
}
use yobi_analytics.HistoryWorker.Retry.{retried, collect_history_shard-retry}
use yobi_analytics.HistoryWorker.Coverage.{has_entry, has_row, carried-covers}

abbrev published : Option PublishedAt
published = some (record { text = "2024-05-01T00:00:00Z"; date = some 739007 })

abbrev entry : String → ManifestEntry
entry id = record {
  video_id = id;
  creator_id = "creator";
  active = true;
  published_at = published;
  activity_state = cold;
  topic = none;
  content_type = some upload;
  live_status = none;
}

abbrev video : String → ℕ → Video fractions
video id views = record {
  video_id = id;
  creator_id = "creator";
  title = id;
  published_at = "2024-05-01T00:00:00Z";
  thumbnail_url = none;
  tracked = record {
    activity_state = cold;
    snapshot_count = 5;
    quiet_streak = 3;
    last_view_count = some views;
    last_checked_at = some 1787961600000000;
  };
  last_classification_reason = none;
  last_percent_growth_per_day = none;
  last_avg_views_per_day = none;
  discovered_at = none;
  topic = none;
  content_type = some upload;
  live_status = none;
}

-- The length of an id stands for its digest: on day 739502 "ab" is due and "abc" is not.
abbrev stores : Stores fractions
stores = record {
  manifest = λ _. entry "ab" ∷ entry "abc" ∷ [];
  history = λ _ _. none;
  master = ("ab", video "ab" 1000) ∷ ("abc", video "abc" 50) ∷ [];
}

abbrev answer : List String → Fetched
answer _ = record {
  videos =
      record { video_id = "ab"; view_count = 9000; content_type = some upload; live_status = none }
      ∷ [];
  skipped = [];
}

abbrev run : Result (ShardCollectionResult × Stores fractions)
run = collect_history_shard fractions len (λ _. 3) answer 739502 1788048000000000 3 stores

abbrev nothing : ShardCollectionResult × Stores fractions
nothing = (record { requested_count = 0; collected_count = 0; skipped = []; rows = [] }, stores)

abbrev outcome_of :
    Result (ShardCollectionResult × Stores fractions) → ShardCollectionResult × Stores fractions
outcome_of (ok out) = out
outcome_of (raised x) = nothing

abbrev report : ShardCollectionResult
report = (outcome_of run).0

abbrev after : Stores fractions
after = (outcome_of run).1

collected : run ≡ ok (report, after)
unfolding collect_history_shard lookup insert
collected = refl

-- Both videos have a row; only "ab" was asked of YouTube.
collected_rows :
    map {B = String × Bool} (λ row. (row.video_id, row.carried_forward)) report.rows
    ≡ ("ab", false) ∷ ("abc", true) ∷ []
unfolding collect_history_shard lookup insert sorted member select_due_video_ids is_due_today
    text_le
collected_rows = refl

stores-IsKeyed : IsKeyed fractions stores.master
unfolding lookup
stores-IsKeyed k v e = ground (arith, eq_iff "ab" k, eq_iff "abc" k)

collect_history_shard-retry_example :
    (after.history 739502 3 ≡ some report.rows)
    × ((at' : ℕ)
        → collect_history_shard fractions len (λ _. 3) answer 739502 at' 3 after
          ≡ ok (retried fractions len (λ _. 3) answer report.rows, after))
collect_history_shard-retry_example =
    collect_history_shard-retry fractions len (λ _. 3) answer 739502 1788048000000000 3 stores
      report after stores-IsKeyed refl collected

abbrev row : HistoryRow
row = record {
  video_id = "ab";
  creator_id = "creator";
  view_count = 9000;
  observed_at = 1788048000000000;
  availability_status = "available";
  carried_forward = false;
  content_type = some upload;
  live_status = none;
}

carried-covers_example :
    let active : List ManifestEntry = entry "ab" ∷ entry "abc" ∷ [] in
    (has_entry "abc" active ≡ true
      → (member "abc" (ids_to_fetch fractions len (λ _. 3) answer 739502 3 active stores)
          || has_row "abc" (carried fractions len (λ _. 3) answer 739502 3 active stores).0)
        ≡ true)
    × (has_row "abc" (carried fractions len (λ _. 3) answer 739502 3 active stores).0 ≡ true
        → (has_entry "abc" active ≡ true)
          × (member "abc" (due_set fractions len (λ _. 3) answer 739502 active) ≡ false))
carried-covers_example =
    carried-covers fractions len (λ _. 3) answer "abc" 739502 3 (entry "ab" ∷ entry "abc" ∷ [])
      stores
