-- ===== src/Reminders/Tests.antt =====
-- Runs of the reminders at concrete inputs.
use yobi_analytics.Prelude.{◌≡◌, refl, inl, inr, true, none, some, [], ◌∷◌, Dict, lookup, member}
use yobi_analytics.Reminders.{
  thirty_minutes, LiveReminderSetting, FirstSeen, StreamScheduleEntry, resolve_effective_setting,
  ReminderSettings, is_advance_catch_up_due, is_catch_up_due, seen_at,
}
use yobi_analytics.Reminders.Candidates.{due_streams, setting_may_be_due}
use yobi_analytics.Reminders.Derive.{StreamScheduleSnapshot, derive_first_seen}
use yobi_analytics.Reminders.Completeness.{IsListed, due_reminder_is_found}

abbrev half_hour_before : LiveReminderSetting
half_hour_before = record {
  notify_at_start = true;
  advance_reminder = some thirty_minutes;
  updated_at = some 1000;
}

-- The stream starts in minute 100 and was seen in minute 80.
abbrev seen_late : FirstSeen
seen_late = record { start_minute = 100; first_seen_at = some 4800000000; prior_start_minutes = [] }

abbrev stream_late : StreamScheduleEntry
stream_late = record {
  creator_id = "creator-1";
  scheduled_start_ms = 6000000;
  topic = none;
  title = some "title";
  status = some "upcoming";
  first_seen = some seen_late;
}

abbrev schedule_late : Dict StreamScheduleEntry
schedule_late = ("video-1", stream_late) ∷ []

catch_up_at_82 :
    is_advance_catch_up_due half_hour_before 6000000 4920000 60000
      (some "upcoming")
      (some seen_late)
      (some 2000)
    ≡ true
unfolding is_advance_catch_up_due is_catch_up_due seen_at
catch_up_at_82 = refl

due_reminder_is_found_example :
    IsListed ("video-1", stream_late) (due_streams true 4920000 60000 schedule_late).0
    × (setting_may_be_due half_hour_before stream_late 4920000 60000
          (member "video-1" (due_streams true 4920000 60000 schedule_late).1)
        ≡ true)
due_reminder_is_found_example =
    due_reminder_is_found schedule_late "video-1" stream_late half_hour_before 4920000 60000 true
      (some 2000) (inl refl) (inr (inr (refl, catch_up_at_82)))

-- The previous record knows video-1 and was derived a minute before.
abbrev snapshot_before : StreamScheduleSnapshot
snapshot_before = record {
  entries = schedule_late;
  refreshed_at = 4860000000;
  source_refreshed_at = some 4860000000;
  first_seen = some (("video-1", seen_late) ∷ []);
}

abbrev snapshot_without : StreamScheduleSnapshot
snapshot_without = record {
  entries = [];
  refreshed_at = 4921000000;
  source_refreshed_at = some 4920000000;
  first_seen =
      some (derive_first_seen (some snapshot_before) [] (some 4920000000) 4921000000 900000000);
}

-- A stream's own setting goes before the creator's.
abbrev two_settings : ReminderSettings
two_settings = record {
  creator_all = ("creator-1", half_hour_before) ∷ [];
  creator_topics = [];
  stream_overrides =
      (
        "video-1",
        record {
          creator_id = "creator-1";
          setting = record { notify_at_start = true; advance_reminder = none; updated_at = none };
        },
      )
      ∷ [];
}

resolve_override_test :
    resolve_effective_setting "video-1" "creator-1" (some "singing") two_settings
    ≡ some (record { notify_at_start = true; advance_reminder = none; updated_at = none })
unfolding resolve_effective_setting lookup
resolve_override_test = refl
