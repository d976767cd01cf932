-- ===== src/Reminders.antt =====
-- src/notifications/live_reminder.py: a client's reminder settings, the schedule entries and when a
-- reminder is due. Times in milliseconds are the schedule's own; a datetime is its microseconds. A
-- fire time is `start - offset`; both sides of a comparison with it are moved by the offset, so that
-- nothing is subtracted.
use yobi_analytics.Prelude.{
  ℕ, ◌+◌, ◌*◌, ◌/◌, ◌==◌, String, Bool, true, false, not, ◌&&◌, ◌||◌, Option, none, some, List, [],
  ◌∷◌, leb, ltb, str_eq, Dict, lookup, if◌then◌else◌,
}
pub mod Candidates
pub mod Derive
pub mod Completeness
pub mod Exclusive
pub mod Stamps
pub mod Priors
pub mod Send
pub mod Once
pub mod Deliver
pub mod Instants
pub mod NoGap
pub mod Timely
pub mod OneAdvance
mod Tests
mod SendTests
mod DeliverTests

-- The keys of ADVANCE_REMINDER_OFFSET_MINUTES.
pub data AdvanceReminder : Type 0 where
  one_minute ten_minutes thirty_minutes one_hour : AdvanceReminder

abbrev pub advance_reminder_offset_minutes : AdvanceReminder → ℕ
advance_reminder_offset_minutes one_minute = 1
advance_reminder_offset_minutes ten_minutes = 10
advance_reminder_offset_minutes thirty_minutes = 30
advance_reminder_offset_minutes one_hour = 60

abbrev pub minute_ms : ℕ
minute_ms = 60000

abbrev pub offset_ms : AdvanceReminder → ℕ
offset_ms a = advance_reminder_offset_minutes a * minute_ms

abbrev pub catch_up_min_remaining_ms : ℕ
catch_up_min_remaining_ms = 2 * minute_ms

abbrev pub max_prior_start_minutes : ℕ
max_prior_start_minutes = 8

abbrev pub first_seen_retention_after_start_ms : ℕ
first_seen_retention_after_start_ms = 2 * 60 * minute_ms

abbrev pub epoch_ms : ℕ → ℕ
epoch_ms moment = moment / 1000

pub record LiveReminderSetting : Type 0 where
  pub notify_at_start : Bool
  pub advance_reminder : Option AdvanceReminder
  pub updated_at : Option ℕ

pub record FirstSeen : Type 0 where
  pub start_minute : ℕ
  pub first_seen_at : Option ℕ
  pub prior_start_minutes : List ℕ

pub record StreamScheduleEntry : Type 0 where
  pub creator_id : String
  pub scheduled_start_ms : ℕ
  pub topic : Option String
  pub title : Option String
  pub status : Option String
  pub first_seen : Option FirstSeen

pub record StreamReminderOverride : Type 0 where
  pub creator_id : String
  pub setting : LiveReminderSetting

-- A client's settings: by creator, by creator and topic, and by stream.
pub record ReminderSettings : Type 0 where
  pub creator_all : Dict LiveReminderSetting
  pub creator_topics : List ((String × String) × LiveReminderSetting)
  pub stream_overrides : Dict StreamReminderOverride

-- `creator_topics.get((creator_id, topic))`
unfoldable pub lookup_topic :
    String → String → List ((String × String) × LiveReminderSetting) → Option LiveReminderSetting
lookup_topic creator_id topic [] = none
lookup_topic creator_id topic (((c, t), setting) ∷ rest) =
    if str_eq c creator_id && str_eq t topic
    then some setting
    else lookup_topic creator_id topic rest

unfoldable pub topic_setting :
    String → Option String → ReminderSettings → Option LiveReminderSetting
unfolding lookup_topic
topic_setting creator_id none settings = none
topic_setting creator_id (some topic) settings =
    lookup_topic creator_id topic settings.creator_topics

abbrev pub override_setting : Option StreamReminderOverride → Option LiveReminderSetting
override_setting none = none
override_setting (some o) = some o.setting

abbrev pub or_else {ℓ} : {A : Type ℓ} → Option A → Option A → Option A
or_else (some a) o = some a
or_else none o = o

-- The stream's override, else the creator's setting for all topics, else that for the topic.
unfoldable pub resolve_effective_setting :
    String → String → Option String → ReminderSettings → Option LiveReminderSetting
unfolding topic_setting
resolve_effective_setting video_id creator_id topic settings =
    or_else (override_setting (lookup video_id settings.stream_overrides))
      (or_else (lookup creator_id settings.creator_all) (topic_setting creator_id topic settings))

-- `start - offset <= now_ms < start - offset + window_ms`
unfoldable pub is_moment_due : (start offset now_ms window_ms : ℕ) → Bool
is_moment_due start offset now_ms window_ms =
    leb start (now_ms + offset) && ltb (now_ms + offset) (start + window_ms)

unfoldable pub is_advance_due : Option AdvanceReminder → (start now_ms window_ms : ℕ) → Bool
unfolding is_moment_due
is_advance_due none start now_ms window_ms = false
is_advance_due (some a) start now_ms window_ms = is_moment_due start (offset_ms a) now_ms window_ms

unfoldable pub is_advance_reminder_due : LiveReminderSetting → (start now_ms window_ms : ℕ) → Bool
unfolding is_advance_due
is_advance_reminder_due setting start now_ms window_ms =
    is_advance_due setting.advance_reminder start now_ms window_ms

unfoldable pub is_start_reminder_due : LiveReminderSetting → (start now_ms window_ms : ℕ) → Bool
unfolding is_moment_due
is_start_reminder_due setting start now_ms window_ms =
    setting.notify_at_start && is_moment_due start 0 now_ms window_ms

abbrev pub is_upcoming : Option String → Bool
is_upcoming none = false
is_upcoming (some status) = str_eq status "upcoming"

-- Saved by the fire time: `saved_at is not None and _epoch_ms(saved_at) <= fire_at`.
abbrev pub is_saved_by : (start offset : ℕ) → Option ℕ → Bool
is_saved_by start offset none = false
is_saved_by start offset (some saved_at) = leb (epoch_ms saved_at + offset) start

-- The instant at which a stream's current start was first seen, if it is known.
unfoldable pub seen_at : (start : ℕ) → Option FirstSeen → Option ℕ
seen_at start none = none
seen_at start (some stamp) =
    if stamp.start_minute == start / minute_ms then stamp.first_seen_at else none

-- `_epoch_ms(first_seen_at) > fire_at`
abbrev pub is_seen_late : (start offset : ℕ) → Option ℕ → Bool
is_seen_late start offset none = false
is_seen_late start offset (some at) = ltb start (epoch_ms at + offset)

unfoldable pub is_catch_up_due :
    Option AdvanceReminder
    → (updated_at subscription_updated_at : Option ℕ) (start now_ms window_ms : ℕ)
      (status : Option String) (first_seen : Option FirstSeen)
    → Bool
unfolding seen_at
is_catch_up_due none updated_at subscription_updated_at start now_ms window_ms status first_seen =
    false
is_catch_up_due (some a) updated_at subscription_updated_at start now_ms window_ms status
      first_seen =
    if not (is_upcoming status)
    then false
    else if ltb (now_ms + offset_ms a) (start + window_ms)
        || ltb start (now_ms + catch_up_min_remaining_ms)
    then false
    else is_seen_late start (offset_ms a) (seen_at start first_seen)
      && (is_saved_by start (offset_ms a) updated_at
          && is_saved_by start (offset_ms a) subscription_updated_at)

unfoldable pub is_advance_catch_up_due :
    LiveReminderSetting
    → (start now_ms window_ms : ℕ) (status : Option String) (first_seen : Option FirstSeen)
      (subscription_updated_at : Option ℕ)
    → Bool
unfolding is_catch_up_due
is_advance_catch_up_due setting start now_ms window_ms status first_seen subscription_updated_at =
    is_catch_up_due setting.advance_reminder setting.updated_at subscription_updated_at start now_ms
      window_ms status first_seen
