-- ===== src/HistoryWorker/Records.antt =====
-- The records of src/collection/history_worker.py: Video of src/tracking/video_master.py,
-- HistoryRow of src/stores/history_store.py and ManifestEntry of src/tracking/tracking_manifest.py.
-- A timestamp is the instant of its text, in microseconds; texts that do not parse do not occur in
-- what the collection itself writes.
use yobi_analytics.Prelude.{
  ℕ, String, Bool, true, false, Option, none, some, List, [], ◌∷◌, Dict, insert,
}
use yobi_analytics.TrackingSchedule.{ActivityState, Candidate, Floats, Tracked, Reason}

pub data ContentType : Type 0 where
  live upload short : ContentType
  other_type : String → ContentType

pub data LiveStatus : Type 0 where
  upcoming live completed : LiveStatus
  other_status : String → LiveStatus

pub record HistoryRow : Type 0 where
  pub video_id : String
  pub creator_id : String
  pub view_count : ℕ
  pub observed_at : ℕ
  pub availability_status : String
  pub carried_forward : Bool
  pub content_type : Option ContentType
  pub live_status : Option LiveStatus

-- The scheduler state is the record `tracked`.
pub record Video (fl : Floats) : Type 0 where
  pub video_id : String
  pub creator_id : String
  pub title : String
  pub published_at : String
  pub thumbnail_url : Option String
  pub tracked : Tracked
  pub last_classification_reason : Option Reason
  pub last_percent_growth_per_day : Option fl.Float
  pub last_avg_views_per_day : Option fl.Float
  pub discovered_at : Option String
  pub topic : Option String
  pub content_type : Option ContentType
  pub live_status : Option LiveStatus

-- A `publishedAt` text, with the date that it parses to.
pub record PublishedAt : Type 0 where
  pub text : String
  pub date : Option ℕ

pub record ManifestEntry : Type 0 where
  pub video_id : String
  pub creator_id : String
  pub active : Bool
  pub published_at : Option PublishedAt
  pub activity_state : ActivityState
  pub topic : Option String
  pub content_type : Option ContentType
  pub live_status : Option LiveStatus

-- `contentType == "live" and liveStatus is None`, or no content type at all.
unfoldable pub is_classification_incomplete : Option ContentType → Option LiveStatus → Bool
is_classification_incomplete none live_status = true
is_classification_incomplete (some live) none = true
is_classification_incomplete (some _) _ = false

unfoldable pub is_known_non_livestream : Option ContentType → Bool
is_known_non_livestream (some upload) = true
is_known_non_livestream (some short) = true
is_known_non_livestream _ = false

abbrev published_date : Option PublishedAt → Option ℕ
published_date none = none
published_date (some p) = p.date

-- The triple that selection takes from an entry.
abbrev pub candidate_of : ManifestEntry → Candidate
candidate_of entry = record {
  video_id = entry.video_id;
  published_on = published_date entry.published_at;
  activity_state = entry.activity_state;
}

-- Video Master by video id, as get_video and upsert_videos use it.
abbrev pub Master : Floats → Type 0
Master fl = Dict (Video fl)

unfoldable pub upsert_videos : (fl : Floats) → List (Video fl) → Master fl → Master fl
upsert_videos fl [] master = master
upsert_videos fl (v ∷ vs) master = upsert_videos fl vs (insert v.video_id v master)
