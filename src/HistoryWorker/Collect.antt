-- ===== src/HistoryWorker/Collect.antt =====
-- `collect_history_shard` of src/collection/history_worker.py with its selections. The three stores
-- are the state `Stores`; YouTube, through get_video_statistics, is the parameter `fetch`.
use yobi_analytics.Prelude.{
  ℕ, ◌-◌, String, Bool, true, false, not, ◌&&◌, Option, none, some, List, [], ◌∷◌, ◌++◌, Dict,
  lookup, insert, member, keep, take, length, map, exists, ltb, ◌==◌, str_eq, if◌then◌else◌,
}
use yobi_analytics.Prelude.Sort.{sorted}
use yobi_analytics.Prelude.TextOrder.{text_le}
use yobi_analytics.Prelude.TextSets.{sorted_set}
use yobi_analytics.TrackingSchedule.{Floats, select_due_video_ids}
use yobi_analytics.HistoryWorker.Records.{
  ContentType, LiveStatus, upcoming, HistoryRow, Video, PublishedAt, ManifestEntry, candidate_of,
  is_classification_incomplete, Master, upsert_videos,
}
use yobi_analytics.HistoryWorker.Updates.{build_scheduler_updates, patch_entries}

abbrev pub unclassified_observation_budget_per_shard : ℕ
unclassified_observation_budget_per_shard = 2500

abbrev pub history_shard_count : ℕ
history_shard_count = 16

abbrev is_in_progress : Option LiveStatus → Bool
is_in_progress (some upcoming) = true
is_in_progress (some LiveStatus.live) = true
is_in_progress _ = false

abbrev published_text : Option PublishedAt → String
published_text none = ""
published_text (some p) = p.text

-- `a` stands before `b` in the order by (published_at or "", video_id), descending.
pub newest_first : ManifestEntry → ManifestEntry → Bool
newest_first a b =
    let s = published_text a.published_at in
    let t = published_text b.published_at in
    if str_eq s t then text_le b.video_id a.video_id else text_le t s

abbrev ids_of : List ManifestEntry → List String
ids_of entries = map (λ entry. entry.video_id) entries

unfoldable pub in_progress_ids : List ManifestEntry → List String
in_progress_ids entries = ids_of (keep (λ entry. is_in_progress entry.live_status) entries)

unfoldable pub unclassified_entries : List ManifestEntry → List String → List ManifestEntry
unfolding is_classification_incomplete in_progress_ids newest_first
unclassified_entries entries already_due = sorted newest_first (
    keep
      (λ entry.
        is_classification_incomplete entry.content_type entry.live_status
        && not (member entry.video_id already_due)
        && not (member entry.video_id (in_progress_ids entries)))
      entries)

unfoldable pub select_classification_due_ids : List ManifestEntry → List String → List String
unfolding in_progress_ids unclassified_entries
select_classification_due_ids entries already_due =
    in_progress_ids entries
    ++ ids_of
        (take unclassified_observation_budget_per_shard (unclassified_entries entries already_due))

-- `{entry.video_id: entry.creator_id for entry in entries}`
unfoldable pub creators_from : List ManifestEntry → Dict String → Dict String
creators_from [] d = d
creators_from (entry ∷ entries) d = creators_from entries (insert entry.video_id entry.creator_id d)

abbrev pub creator_by_video : List ManifestEntry → Dict String
unfolding creators_from
creator_by_video entries = creators_from entries []

-- `{row.video_id: row for row in rows}`
unfoldable pub rows_by_id : List HistoryRow → Dict HistoryRow → Dict HistoryRow
rows_by_id [] d = d
rows_by_id (row ∷ rows) d = rows_by_id rows (insert row.video_id row d)

-- What YouTube tells of a video, and the answer to a whole request.
pub record Statistics : Type 0 where
  pub video_id : String
  pub view_count : ℕ
  pub content_type : Option ContentType
  pub live_status : Option LiveStatus

pub record Fetched : Type 0 where
  pub videos : List Statistics
  pub skipped : Dict String

-- A fresh row, or the KeyError of `creator_by_video[video["videoId"]]`.
unfoldable pub fresh_row : ℕ → Option String → Statistics → Option HistoryRow
fresh_row observed_at none video = none
fresh_row observed_at (some creator_id) video = some (record {
  video_id = video.video_id;
  creator_id = creator_id;
  view_count = video.view_count;
  observed_at = observed_at;
  availability_status = "available";
  carried_forward = false;
  content_type = video.content_type;
  live_status = video.live_status;
})

abbrev pub cons_both : Option HistoryRow → Option (List HistoryRow) → Option (List HistoryRow)
cons_both (some row) (some rows) = some (row ∷ rows)
cons_both _ _ = none

unfoldable pub fresh_rows : ℕ → Dict String → List Statistics → Option (List HistoryRow)
unfolding fresh_row
fresh_rows observed_at creators [] = some []
fresh_rows observed_at creators (video ∷ videos) =
    cons_both (fresh_row observed_at (lookup video.video_id creators) video)
      (fresh_rows observed_at creators videos)

module _ (fl : Floats) where
  -- The row that stands for a video of `creator_id` that is not due: yesterday's, else what Video
  -- Master last saw, else none.
  unfoldable pub master_row : String → String → Option ℕ → Option ℕ → Video fl → Option HistoryRow
  master_row video_id creator_id (some view_count) (some checked_at) existing = some (record {
    video_id = video_id;
    creator_id = creator_id;
    view_count = view_count;
    observed_at = checked_at;
    availability_status = "available";
    carried_forward = true;
    content_type = existing.content_type;
    live_status = existing.live_status;
  })
  master_row video_id creator_id _ _ existing = none

  unfoldable pub carried_row :
      String → String → Option HistoryRow → Option (Video fl) → Option HistoryRow
  unfolding master_row
  carried_row video_id creator_id (some previous_row) found =
      some (record previous_row { carried_forward = true })
  carried_row video_id creator_id none none = none
  carried_row video_id creator_id none (some existing) =
      master_row video_id creator_id existing.tracked.last_view_count
        existing.tracked.last_checked_at existing

  abbrev pub add_carried :
      String → Option HistoryRow → List HistoryRow × List String → List HistoryRow × List String
  add_carried video_id none (rows, forced) = (rows, video_id ∷ forced)
  add_carried video_id (some row) (rows, forced) = (row ∷ rows, forced)

  -- The carried rows and the ids that must be fetched after all, for the videos of `non_due` with
  -- their creators.
  unfoldable pub carry_forward_non_due_rows :
      Dict String → Dict HistoryRow → Master fl → List HistoryRow × List String
  unfolding carried_row
  carry_forward_non_due_rows [] previous_by_id master = ([], [])
  carry_forward_non_due_rows ((video_id, creator_id) ∷ non_due) previous_by_id master =
      add_carried video_id
        (carried_row video_id creator_id (lookup video_id previous_by_id) (lookup video_id master))
        (carry_forward_non_due_rows non_due previous_by_id master)

-- The manifest by shard, the daily history by date and shard (none where nothing was written), and
-- Video Master.
pub record Stores (fl : Floats) : Type 0 where
  pub manifest : ℕ → List ManifestEntry
  pub history : ℕ → ℕ → Option (List HistoryRow)
  pub master : Master fl

pub data Error : Type 0 where
  bad_shard misplaced_videos unknown_video : Error

pub data Result {ℓ} (A : Type ℓ) : Type ℓ where
  ok : A → Result A
  raised : Error → Result A

-- The part of ShardCollectionResult that this run decides; its maps of the manifest are left out.
pub record ShardCollectionResult : Type 0 where
  pub requested_count : ℕ
  pub collected_count : ℕ
  pub skipped : Dict String
  pub rows : List HistoryRow

abbrev pub shard_rows : Option (List HistoryRow) → List HistoryRow
shard_rows none = []
shard_rows (some rows) = rows

pub row_le : HistoryRow → HistoryRow → Bool
row_le a b = text_le a.video_id b.video_id

module _ (fl : Floats) (digest : String → ℕ) (shard_of : String → ℕ)
    (fetch : List String → Fetched) where
  -- The two sets of ids that are due before anything is carried.
  unfoldable pub due_set : ℕ → List ManifestEntry → List String
  unfolding select_classification_due_ids
  due_set collection_date active =
      let due = select_due_video_ids digest (map candidate_of active) collection_date in
      due ++ select_classification_due_ids active due

  unfoldable pub non_due : ℕ → List ManifestEntry → Dict String
  unfolding due_set
  non_due collection_date active =
      sorted (λ a b. text_le a.0 b.0)
        (keep (λ e. not (member e.0 (due_set collection_date active))) (creator_by_video active))

  unfoldable pub carried : ℕ → ℕ → List ManifestEntry → Stores fl → List HistoryRow × List String
  unfolding non_due carry_forward_non_due_rows rows_by_id
  carried collection_date shard active s =
      carry_forward_non_due_rows fl (non_due collection_date active)
        (rows_by_id (shard_rows (s.history (collection_date - 1) shard)) []) s.master

  unfoldable pub ids_to_fetch : ℕ → ℕ → List ManifestEntry → Stores fl → List String
  unfolding due_set carried
  ids_to_fetch collection_date shard active s =
      sorted_set (due_set collection_date active ++ (carried collection_date shard active s).1)

  -- The scheduler write-back: nothing is written where there is nothing to update.
  unfoldable pub write_back : ℕ → List (Video fl) → Stores fl → Stores fl
  write_back shard [] s = s
  write_back shard (v ∷ vs) s = record s {
    manifest = λ n. if n == shard then patch_entries fl (v ∷ vs) (s.manifest n) else s.manifest n;
    master = upsert_videos fl (v ∷ vs) s.master;
  }

  abbrev pub write_history : ℕ → ℕ → List HistoryRow → Stores fl → Stores fl
  write_history collection_date shard rows s = record s {
    history = λ d n. if (d == collection_date) && (n == shard) then some rows else s.history d n;
  }

  -- What follows once the day's rows are there.
  unfoldable pub finish :
      ℕ
      → ℕ
      → Dict String
      → (fresh rows : List HistoryRow) → Stores fl
      → ShardCollectionResult × Stores fl
  unfolding write_back
  finish shard requested_count skipped fresh rows s = (
    record {
      requested_count = requested_count;
      collected_count = length rows;
      skipped = skipped;
      rows = rows;
    },
    write_back shard (build_scheduler_updates fl fresh s.master) s,
  )

  -- `get_video_statistics` was asked for `ids` and every answer has a creator.
  unfoldable pub finish_fresh :
      ℕ
      → ℕ
      → ℕ
      → Dict String
      → List HistoryRow
      → Option (List HistoryRow)
      → Stores fl
      → Result (ShardCollectionResult × Stores fl)
  unfolding finish row_le
  finish_fresh collection_date shard requested_count skipped carried_rows none s =
      raised unknown_video
  finish_fresh collection_date shard requested_count skipped carried_rows (some fresh) s =
      let rows = sorted row_le (fresh ++ carried_rows) in
      ok (
        finish shard requested_count skipped fresh rows
          (write_history collection_date shard rows s))

  unfoldable pub collect_active :
      ℕ
      → ℕ
      → ℕ
      → List ManifestEntry
      → Option (List HistoryRow)
      → Stores fl
      → Result (ShardCollectionResult × Stores fl)
  unfolding finish finish_fresh carried ids_to_fetch fresh_rows creators_from
  collect_active collection_date observed_at shard active (some rows) s =
      let fresh = keep (λ row. not row.carried_forward) rows in
      ok (finish shard (length fresh) [] fresh rows s)
  collect_active collection_date observed_at shard active none s =
      let ids = ids_to_fetch collection_date shard active s in
      let fetched = fetch ids in
      finish_fresh collection_date shard (length ids) fetched.skipped
        (carried collection_date shard active s).0
        (fresh_rows observed_at (creator_by_video active) fetched.videos) s

  unfoldable pub collect_history_shard :
      ℕ → ℕ → ℕ → Stores fl → Result (ShardCollectionResult × Stores fl)
  unfolding collect_active
  collect_history_shard collection_date observed_at shard s =
      let entries = s.manifest shard in
      if not (ltb shard history_shard_count)
      then raised bad_shard
      else if exists (λ entry. not (shard_of entry.video_id == shard)) entries
      then raised misplaced_videos
      else collect_active collection_date observed_at shard (keep (λ entry. entry.active) entries)
          (s.history collection_date shard) s
