-- ===== src/Reminders/Exclusive.antt =====
-- When the reminders of one setting are due together.
use yobi_analytics.Prelude.{
  ℕ, ◌+◌, ◌≤◌, String, ◌≡◌, refl, Bool, true, false, ◌&&◌, Option, none, some, arith,
}
use yobi_analytics.Reminders.{
  AdvanceReminder, one_minute, ten_minutes, thirty_minutes, one_hour, LiveReminderSetting,
  FirstSeen, is_start_reminder_due, is_advance_reminder_due, is_advance_catch_up_due,
  is_advance_due, is_moment_due, is_catch_up_due, minute_ms, offset_ms, catch_up_min_remaining_ms,
}

-- What a due catch-up says of the clock.
pub record IsBetween (offset start now_ms window_ms : ℕ) : Type 0 where
  pub closed : start + window_ms ≤ now_ms + offset
  pub ahead : now_ms + catch_up_min_remaining_ms ≤ start

pub catch_up-IsBetween :
    (a : AdvanceReminder) (u s : Option ℕ) (start now_ms window_ms : ℕ) (status : Option String)
    (stamp : Option FirstSeen)
    → is_catch_up_due (some a) u s start now_ms window_ms status stamp ≡ true
    → IsBetween (offset_ms a) start now_ms window_ms
unfolding is_catch_up_due
catch_up-IsBetween a u s start now_ms window_ms status stamp h = ground arith

start-advance :
    (b : Bool) (r : Option AdvanceReminder) (start now_ms window_ms : ℕ)
    → window_ms ≤ minute_ms
    → (b && is_moment_due start 0 now_ms window_ms && is_advance_due r start now_ms window_ms)
      ≡ false
unfolding is_moment_due is_advance_due
start-advance b none start now_ms window_ms w = ground arith
start-advance b (some one_minute) start now_ms window_ms w = ground arith
start-advance b (some ten_minutes) start now_ms window_ms w = ground arith
start-advance b (some thirty_minutes) start now_ms window_ms w = ground arith
start-advance b (some one_hour) start now_ms window_ms w = ground arith

start-catch_up :
    (b : Bool) (r : Option AdvanceReminder) (u s : Option ℕ) (start now_ms window_ms : ℕ)
    (status : Option String) (stamp : Option FirstSeen)
    → (b
        && is_moment_due start 0 now_ms window_ms
        && is_catch_up_due r u s start now_ms window_ms status stamp)
      ≡ false
unfolding is_moment_due is_catch_up_due
start-catch_up b none u s start now_ms window_ms status stamp = ground arith
start-catch_up b (some a) u s start now_ms window_ms status stamp = ground arith

advance-catch_up :
    (r : Option AdvanceReminder) (u s : Option ℕ) (start now_ms window_ms : ℕ)
    (status : Option String) (stamp : Option FirstSeen)
    → (is_advance_due r start now_ms window_ms
        && is_catch_up_due r u s start now_ms window_ms status stamp)
      ≡ false
unfolding is_advance_due is_moment_due is_catch_up_due
advance-catch_up none u s start now_ms window_ms status stamp = refl
advance-catch_up (some a) u s start now_ms window_ms status stamp = ground arith

-- With a window of at most a minute, no two of the three reminders of a setting are due at once.
pub reminders_are_exclusive :
    (setting : LiveReminderSetting) (start now_ms window_ms : ℕ) (status : Option String)
    (stamp : Option FirstSeen) (saved_at : Option ℕ)
    → window_ms ≤ minute_ms
    → let at_start = is_start_reminder_due setting start now_ms window_ms in
      let in_advance = is_advance_reminder_due setting start now_ms window_ms in
      let late = is_advance_catch_up_due setting start now_ms window_ms status stamp saved_at in
      ((at_start && in_advance) ≡ false)
      × ((at_start && late) ≡ false)
      × ((in_advance && late) ≡ false)
unfolding is_start_reminder_due is_advance_reminder_due is_advance_catch_up_due
reminders_are_exclusive setting start now_ms window_ms status stamp saved_at w = (
  start-advance setting.notify_at_start setting.advance_reminder start now_ms window_ms w,
  start-catch_up setting.notify_at_start setting.advance_reminder setting.updated_at saved_at start
      now_ms window_ms status stamp,
  advance-catch_up setting.advance_reminder setting.updated_at saved_at start now_ms window_ms
      status stamp,
)
