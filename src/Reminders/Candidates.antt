-- ===== src/Reminders/Candidates.antt =====
-- src/notifications/reminder_candidates.py: the streams that may have a reminder due, and the clients
-- whose settings may make one due.
use yobi_analytics.Prelude.{
  ℕ, ◌+◌, ◌/◌, ◌==◌, String, Bool, true, false, not, ◌&&◌, ◌||◌, Option, none, some, List, [], ◌∷◌,
  leb, ltb, Dict, exists, if◌then◌else◌,
}
use yobi_analytics.Reminders.{
  one_minute, ten_minutes, thirty_minutes, one_hour, offset_ms, minute_ms, epoch_ms,
  catch_up_min_remaining_ms, LiveReminderSetting, FirstSeen, StreamScheduleEntry, is_moment_due,
  is_start_reminder_due, is_advance_reminder_due, is_advance_catch_up_due, is_upcoming,
}

abbrev pub advance_offsets_ms : List ℕ
advance_offsets_ms =
    offset_ms one_minute
    ∷ offset_ms ten_minutes
    ∷ offset_ms thirty_minutes
    ∷ offset_ms one_hour
    ∷ []

unfoldable pub on_time_moments_due : StreamScheduleEntry → (now_ms window_ms : ℕ) → Bool
unfolding is_moment_due
on_time_moments_due entry now_ms window_ms =
    exists (λ offset. is_moment_due entry.scheduled_start_ms offset now_ms window_ms)
      (0 ∷ advance_offsets_ms)

-- `first_seen_ms > start - offset and now_ms >= start - offset + window_ms` for some offset.
abbrev pub is_missed : (start first_seen_ms now_ms window_ms : ℕ) → Bool
is_missed start first_seen_ms now_ms window_ms =
    exists
      (λ offset. ltb start (first_seen_ms + offset) && leb (start + window_ms) (now_ms + offset))
      advance_offsets_ms

unfoldable pub may_catch_up :
    Option FirstSeen → (status : Option String) (start now_ms window_ms : ℕ) → Bool
may_catch_up none status start now_ms window_ms = false
may_catch_up (some stamp) status start now_ms window_ms =
    if not (is_upcoming status) then false else elim stamp.first_seen_at [
      | none ↦ false
      | some at ↦
          if not (stamp.start_minute == start / minute_ms)
            || ltb start (now_ms + catch_up_min_remaining_ms)
          then false
          else is_missed start (epoch_ms at) now_ms window_ms
    ]

unfoldable pub may_need_catch_up : StreamScheduleEntry → (now_ms window_ms : ℕ) → Bool
unfolding may_catch_up
may_need_catch_up entry now_ms window_ms =
    may_catch_up entry.first_seen entry.status entry.scheduled_start_ms now_ms window_ms

-- One pass of the loop over the schedule: the branches of its `if` and `elif`.
unfoldable pub file_stream :
    (catch_up on_time : Bool)
    → String × StreamScheduleEntry
    → Dict StreamScheduleEntry × List String
    → Dict StreamScheduleEntry × List String
file_stream true on_time stream (due, catch_up_ids) = (stream ∷ due, stream.0 ∷ catch_up_ids)
file_stream false true stream (due, catch_up_ids) = (stream ∷ due, catch_up_ids)
file_stream false false stream (due, catch_up_ids) = (due, catch_up_ids)

-- The due streams and the ids of those that need a catch-up. `catch_up_enabled` is what the flag
-- reads as.
unfoldable pub due_streams :
    (catch_up_enabled : Bool) (now_ms window_ms : ℕ)
    → Dict StreamScheduleEntry
    → Dict StreamScheduleEntry × List String
unfolding file_stream
due_streams catch_up_enabled now_ms window_ms [] = ([], [])
due_streams catch_up_enabled now_ms window_ms (stream ∷ schedule) =
    file_stream (may_need_catch_up stream.1 now_ms window_ms && catch_up_enabled)
      (on_time_moments_due stream.1 now_ms window_ms) stream
      (due_streams catch_up_enabled now_ms window_ms schedule)

-- `_ASSUMED_EARLY`: the epoch.
abbrev pub assumed_early : Option ℕ
assumed_early = some 0

unfoldable pub setting_may_be_due :
    LiveReminderSetting
    → StreamScheduleEntry
    → (now_ms window_ms : ℕ) (catch_up_possible : Bool) → Bool
unfolding is_start_reminder_due is_advance_reminder_due is_advance_catch_up_due
setting_may_be_due setting entry now_ms window_ms catch_up_possible =
    is_start_reminder_due setting entry.scheduled_start_ms now_ms window_ms
    || (is_advance_reminder_due setting entry.scheduled_start_ms now_ms window_ms
        || (catch_up_possible
            && is_advance_catch_up_due setting entry.scheduled_start_ms now_ms window_ms
                entry.status entry.first_seen assumed_early))
