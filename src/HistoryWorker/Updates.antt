-- ===== src/HistoryWorker/Updates.antt =====
-- `_build_scheduler_updates` of src/collection/history_worker.py, and the manifest patch that
-- follows it.
use yobi_analytics.Prelude.{
  ℕ, Bool, false, Option, none, some, List, [], ◌∷◌, lookup, leb, map, if◌then◌else◌, Dict, insert,
}
use yobi_analytics.TrackingSchedule.{Floats, classify_after_observation}
use yobi_analytics.HistoryWorker.Records.{
  ContentType, live, upload, short, LiveStatus, LiveStatus, HistoryRow, Video, ManifestEntry,
  Master,
}

-- The content type and live status that an observation says of a video. "short" is sticky, and so
-- is "upload" while the broadcast runs.
unfoldable pub observed_types :
    Option ContentType
    → Option ContentType
    → Option LiveStatus
    → Option ContentType × Option LiveStatus
observed_types (some short) (some upload) live_status = (some short, live_status)
observed_types (some upload) (some live) (some LiveStatus.live) = (some upload, none)
observed_types existing content_type live_status = (content_type, live_status)

-- A known content type brings its live status with it; an unknown one keeps both.
unfoldable pub keep_known :
    Option ContentType × Option LiveStatus
    → Option ContentType
    → Option LiveStatus
    → Option ContentType × Option LiveStatus
keep_known (none, observed_status) content_type live_status = (content_type, live_status)
keep_known (some t, observed_status) content_type live_status = (some t, observed_status)

-- The observation is not newer than what Video Master reflects.
abbrev pub is_applied : Option ℕ → ℕ → Bool
is_applied none observed_at = false
is_applied (some checked_at) observed_at = leb observed_at checked_at

module _ (fl : Floats) where
  unfoldable pub update_video : Video fl → HistoryRow → Video fl
  unfolding observed_types keep_known
  update_video existing row =
      let result = classify_after_observation fl existing.tracked row.view_count row.observed_at in
      let types =
        keep_known (observed_types existing.content_type row.content_type row.live_status)
          existing.content_type existing.live_status in
      record existing {
        tracked = record {
          activity_state = result.activity_state;
          snapshot_count = result.snapshot_count;
          quiet_streak = result.quiet_streak;
          last_view_count = some row.view_count;
          last_checked_at = some row.observed_at;
        };
        last_classification_reason = some result.reason;
        last_percent_growth_per_day = result.percent_per_day;
        last_avg_views_per_day = result.avg_views_per_day;
        content_type = types.0;
        live_status = types.1;
      }

  -- What one row adds to the updates, given the video that the store has under its id.
  unfoldable pub add_update : Option (Video fl) → HistoryRow → List (Video fl) → List (Video fl)
  add_update none row updates = updates
  add_update (some existing) row updates =
      if is_applied existing.tracked.last_checked_at row.observed_at
      then updates
      else update_video existing row ∷ updates

  unfoldable pub build_scheduler_updates : List HistoryRow → Master fl → List (Video fl)
  unfolding add_update
  build_scheduler_updates [] master = []
  build_scheduler_updates (row ∷ rows) master =
      add_update (lookup row.video_id master) row (build_scheduler_updates rows master)

  -- `{video.video_id: video for video in updates}`
  unfoldable pub by_video : List (Video fl) → Dict (Video fl) → Dict (Video fl)
  by_video [] d = d
  by_video (v ∷ vs) d = by_video vs (insert v.video_id v d)

  unfoldable pub patch_entry : Option (Video fl) → ManifestEntry → ManifestEntry
  patch_entry none entry = entry
  patch_entry (some v) entry = record entry {
    activity_state = v.tracked.activity_state;
    content_type = v.content_type;
    live_status = v.live_status;
  }

  -- The function `_apply` of _patch_manifest_activity_states.
  unfoldable pub patch_entries : List (Video fl) → List ManifestEntry → List ManifestEntry
  unfolding by_video patch_entry
  patch_entries updates entries =
      map (λ entry. patch_entry (lookup entry.video_id (by_video updates [])) entry) entries
