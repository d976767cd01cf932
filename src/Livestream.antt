-- ===== src/Livestream.antt =====
-- The data and the limits of src/tracking/livestream_lifecycle.py. Instants and durations are in
-- microseconds.
use yobi_analytics.Prelude.{
  ℕ, ◌+◌, ◌*◌, String, Bool, true, false, not, ◌&&◌, Option, none, some, leb, str_eq,
}
pub mod Lookups
pub mod Candidates
pub mod Cycle
pub mod Display
pub mod Evidence
pub mod Progress
pub mod Misses
pub mod Pursuit
pub mod Repeat
pub mod Serving
pub mod Usable
pub mod Watch
mod Tests
mod DisplayTests

abbrev pub second : ℕ
second = 1000000

abbrev pub completion_min_interval : ℕ
completion_min_interval = 120 * second

abbrev pub max_pending_attempts : ℕ
max_pending_attempts = 12

abbrev pub pending_max_age : ℕ
pending_max_age = 24 * 3600 * second

abbrev pub archive_lookup_max_attempts : ℕ
archive_lookup_max_attempts = 3

abbrev pub archive_lookup_min_window : ℕ
archive_lookup_min_window = 20 * 60 * second

abbrev pub archive_lookup_max_age : ℕ
archive_lookup_max_age = 3600 * second

-- The fields `_STREAM_FIELDS` of a stream.
pub record Slim : Type 0 where
  pub video_id : String
  pub creator_id : Option String
  pub title : Option String
  pub scheduled_start : Option ℕ
  pub actual_start : Option ℕ

-- What `get_archive_probe` returns of one video.
pub record Probe : Type 0 where
  pub title : Option String
  pub channel_id : Option String
  pub published_at : Option ℕ
  pub actual_start_time : Option ℕ
  pub actual_end_time : Option ℕ
  pub privacy_status : Option String
  pub upload_status : Option String
  pub embeddable : Option Bool
  pub view_count : Option ℕ

-- Why an archive is not usable, or was handed off.
pub data Reason : Type 0 where
  not_returned_by_youtube metadata_missing channel_mismatch : Reason
  broadcast_not_finalized not_public still_processing not_embeddable : Reason
  lookup_window_elapsed : Reason

-- The facts recorded of a usable archive.
pub record Facts : Type 0 where
  pub title : Option String
  pub channel_id : Option String
  pub actual_start_time : Option ℕ
  pub actual_end_time : Option ℕ
  pub published_at : Option ℕ
  pub view_count : Option ℕ

-- The value under "archive" of an ended stream.
pub data Archive : Type 0 where
  archive_pending archive_unavailable : Archive
  archive_available : (attempts available_at : ℕ) (facts : Facts) → Archive
  archive_handed_off : (attempts handed_off_at : ℕ) (reason : Reason) → Archive

pub data EndState : Type 0 where
  end_state_ended end_state_unavailable : EndState

-- One record of the ended map.
pub record Entry : Type 0 where
  pub stream : Slim
  pub last_seen_live_at : Option ℕ
  pub confirmed_ended_at : ℕ
  pub actual_end : Option ℕ
  pub end_state : EndState
  pub archive : Archive

-- The bookkeeping of a completion candidate.
pub record Candidate : Type 0 where
  pub first_seen_missing_at : Option ℕ
  pub attempts : ℕ
  pub stream : Option Slim
  pub listed_while_ended : Bool

-- The bookkeeping of an archive lookup.
pub record WatchState : Type 0 where
  pub attempts : ℕ
  pub last_reason : Option Reason
  pub last_checked_at : Option ℕ

-- Python's truth of a text that may be missing.
abbrev pub is_given : Option String → Bool
is_given none = false
is_given (some t) = not (str_eq t "")

-- `moment - since > limit`
abbrev pub is_past : (since limit moment : ℕ) → Bool
is_past since limit moment = not (leb moment (since + limit))

-- `is_completed_premiere` of src/collection/youtube_client.py: the video was published from 300
-- seconds before to 60 seconds after the broadcast started, and the broadcast ended.
unfoldable pub is_completed_premiere : (published started finished : Option ℕ) → Bool
is_completed_premiere (some published) (some started) (some finished) =
    leb started (published + 300 * second) && leb published (started + 60 * second)
is_completed_premiere _ _ _ = false
