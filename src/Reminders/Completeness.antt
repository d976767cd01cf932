-- ===== src/Reminders/Completeness.antt =====
-- What the search for due streams and clients leaves out.
use yobi_analytics.Prelude.{
  ℕ, ◌+◌, ◌≤◌, ◌<◌, ◌≡◌, refl, ◌⊎◌, inl, inr, String, Bool, true, false, ◌&&◌, ◌||◌, Option, none,
  some, List, [], ◌∷◌, arith, Dict, member, subst, eq_refl,
}
use yobi_analytics.Reminders.{
  AdvanceReminder, one_minute, ten_minutes, thirty_minutes, one_hour, LiveReminderSetting,
  FirstSeen, is_start_reminder_due, is_advance_reminder_due, is_advance_catch_up_due,
  is_advance_due, seen_at, is_moment_due, is_catch_up_due, StreamScheduleEntry, epoch_ms, offset_ms,
}
use yobi_analytics.Reminders.Candidates.{
  on_time_moments_due, may_catch_up, may_need_catch_up, due_streams, setting_may_be_due,
  assumed_early, is_missed, file_stream,
}

abbrev pub IsListed : String × StreamScheduleEntry → Dict StreamScheduleEntry → Type 0
IsListed x [] = ⊥
IsListed x (y ∷ ys) = (y ≡ x) ⊎ IsListed x ys

module _ (setting : LiveReminderSetting) (entry : StreamScheduleEntry) (now_ms window_ms : ℕ) where
  -- What the delivery decides for a client with this setting, whose subscription is of `saved_at`.
  abbrev pub IsReminderDue : (catch_up_enabled : Bool) → Option ℕ → Type 0
  IsReminderDue catch_up_enabled saved_at =
      (is_start_reminder_due setting entry.scheduled_start_ms now_ms window_ms ≡ true)
      ⊎ (is_advance_reminder_due setting entry.scheduled_start_ms now_ms window_ms ≡ true)
      ⊎ (catch_up_enabled ≡ true)
        × (is_advance_catch_up_due setting entry.scheduled_start_ms now_ms window_ms entry.status
              entry.first_seen saved_at
            ≡ true)

  start-on_time :
      is_start_reminder_due setting entry.scheduled_start_ms now_ms window_ms ≡ true
      → on_time_moments_due entry now_ms window_ms ≡ true
  unfolding is_start_reminder_due on_time_moments_due is_moment_due
  start-on_time h = ground arith

advance_due-on_time :
    (r : Option AdvanceReminder) (entry : StreamScheduleEntry) (now_ms window_ms : ℕ)
    → is_advance_due r entry.scheduled_start_ms now_ms window_ms ≡ true
    → on_time_moments_due entry now_ms window_ms ≡ true
unfolding is_advance_due on_time_moments_due is_moment_due
advance_due-on_time none entry now_ms window_ms h = cc
advance_due-on_time (some one_minute) entry now_ms window_ms h = ground arith
advance_due-on_time (some ten_minutes) entry now_ms window_ms h = ground arith
advance_due-on_time (some thirty_minutes) entry now_ms window_ms h = ground arith
advance_due-on_time (some one_hour) entry now_ms window_ms h = ground arith

catch_up-early :
    (r : Option AdvanceReminder) (u s : Option ℕ) (start now_ms window_ms : ℕ)
    (status : Option String) (stamp : Option FirstSeen)
    → is_catch_up_due r u s start now_ms window_ms status stamp ≡ true
    → is_catch_up_due r u assumed_early start now_ms window_ms status stamp ≡ true
unfolding is_catch_up_due
catch_up-early none u s start now_ms window_ms status stamp h = cc
catch_up-early (some a) u none start now_ms window_ms status stamp h = ground arith
catch_up-early (some a) u (some s) start now_ms window_ms status stamp h = ground arith

is_missed-one :
    (a : AdvanceReminder) (start at now_ms window_ms : ℕ)
    → start < epoch_ms at + offset_ms a
    → start + window_ms ≤ now_ms + offset_ms a
    → is_missed start (epoch_ms at) now_ms window_ms ≡ true
is_missed-one one_minute start at now_ms window_ms h k = ground arith
is_missed-one ten_minutes start at now_ms window_ms h k = ground arith
is_missed-one thirty_minutes start at now_ms window_ms h k = ground arith
is_missed-one one_hour start at now_ms window_ms h k = ground arith

stamp-may :
    (a : AdvanceReminder) (u s : Option ℕ) (start now_ms window_ms : ℕ) (status : Option String)
    (minute : ℕ) (seen : Option ℕ) (priors : List ℕ)
    → let stamp : FirstSeen = record {
      start_minute = minute;
      first_seen_at = seen;
      prior_start_minutes = priors;
    } in
      is_catch_up_due (some a) u s start now_ms window_ms status (some stamp) ≡ true
      → may_catch_up (some stamp) status start now_ms window_ms ≡ true
unfolding is_catch_up_due seen_at may_catch_up
stamp-may a u s start now_ms window_ms status minute none priors h = ground arith
stamp-may a u s start now_ms window_ms status minute (some at) priors h =
    ground (arith, is_missed-one a start at now_ms window_ms)

catch_up-may :
    (r : Option AdvanceReminder) (u s : Option ℕ) (start now_ms window_ms : ℕ)
    (status : Option String) (stamp : Option FirstSeen)
    → is_catch_up_due r u s start now_ms window_ms status stamp ≡ true
    → may_catch_up stamp status start now_ms window_ms ≡ true
unfolding is_catch_up_due seen_at may_catch_up
catch_up-may none u s start now_ms window_ms status stamp h = absurd cc
catch_up-may (some a) u s start now_ms window_ms status none h = ground arith
catch_up-may (some a) u s start now_ms window_ms status (some stamp) h =
    stamp-may a u s start now_ms window_ms status stamp.start_minute stamp.first_seen_at
      stamp.prior_start_minutes h

module _ (setting : LiveReminderSetting) (entry : StreamScheduleEntry) (now_ms window_ms : ℕ) where
  setting_advance-on_time :
      is_advance_reminder_due setting entry.scheduled_start_ms now_ms window_ms ≡ true
      → on_time_moments_due entry now_ms window_ms ≡ true
  unfolding is_advance_reminder_due
  setting_advance-on_time h = advance_due-on_time setting.advance_reminder entry now_ms window_ms h

  setting_catch_up-may :
      (saved_at : Option ℕ)
      → is_advance_catch_up_due setting entry.scheduled_start_ms now_ms window_ms entry.status
          entry.first_seen saved_at
        ≡ true
      → may_need_catch_up entry now_ms window_ms ≡ true
  unfolding is_advance_catch_up_due may_need_catch_up
  setting_catch_up-may saved_at h =
      catch_up-may setting.advance_reminder setting.updated_at saved_at entry.scheduled_start_ms
        now_ms window_ms entry.status entry.first_seen h

  setting_catch_up-early :
      (saved_at : Option ℕ)
      → is_advance_catch_up_due setting entry.scheduled_start_ms now_ms window_ms entry.status
          entry.first_seen saved_at
        ≡ true
      → is_advance_catch_up_due setting entry.scheduled_start_ms now_ms window_ms entry.status
          entry.first_seen assumed_early
        ≡ true
  unfolding is_advance_catch_up_due
  setting_catch_up-early saved_at h =
      catch_up-early setting.advance_reminder setting.updated_at saved_at entry.scheduled_start_ms
        now_ms window_ms entry.status entry.first_seen h

file_stream-keeps :
    (x stream : String × StreamScheduleEntry) (c o : Bool)
    (found : Dict StreamScheduleEntry × List String)
    → IsListed x found.0
    → IsListed x (file_stream c o stream found).0
unfolding file_stream
file_stream-keeps x stream true o found h = inr h
file_stream-keeps x stream false true found h = inr h
file_stream-keeps x stream false false found h = h

file_stream-keeps_id :
    (v : String) (stream : String × StreamScheduleEntry) (c o : Bool)
    (found : Dict StreamScheduleEntry × List String)
    → member v found.1 ≡ true
    → member v (file_stream c o stream found).1 ≡ true
unfolding file_stream member
file_stream-keeps_id v stream true o found h = ground arith
file_stream-keeps_id v stream false true found h = h
file_stream-keeps_id v stream false false found h = h

file_stream-on_time :
    (stream : String × StreamScheduleEntry) (c : Bool)
    (found : Dict StreamScheduleEntry × List String)
    → IsListed stream (file_stream c true stream found).0
unfolding file_stream
file_stream-on_time stream true found = inl refl
file_stream-on_time stream false found = inl refl

-- The streams found among a schedule.
on_time-IsListed :
    (enabled : Bool) (now_ms window_ms : ℕ) (schedule : Dict StreamScheduleEntry)
    (x : String × StreamScheduleEntry)
    → IsListed x schedule
    → on_time_moments_due x.1 now_ms window_ms ≡ true
    → IsListed x (due_streams enabled now_ms window_ms schedule).0
unfolding due_streams
on_time-IsListed enabled now_ms window_ms [] x l h = l
on_time-IsListed enabled now_ms window_ms (y ∷ schedule) x (inl p) h =
    subst
      (λ z.
        on_time_moments_due z.1 now_ms window_ms ≡ true
        → IsListed z (due_streams enabled now_ms window_ms (y ∷ schedule)).0)
      p (λ k. rw k (file_stream-on_time y _ _)) h
on_time-IsListed enabled now_ms window_ms (y ∷ schedule) x (inr l) h =
    file_stream-keeps x y _ _ _ (on_time-IsListed enabled now_ms window_ms schedule x l h)

catch_up-IsListed :
    (now_ms window_ms : ℕ) (schedule : Dict StreamScheduleEntry) (x : String × StreamScheduleEntry)
    → IsListed x schedule
    → may_need_catch_up x.1 now_ms window_ms ≡ true
    → IsListed x (due_streams true now_ms window_ms schedule).0
      × (member x.0 (due_streams true now_ms window_ms schedule).1 ≡ true)
unfolding due_streams file_stream member
catch_up-IsListed now_ms window_ms [] x l h = absurd l
catch_up-IsListed now_ms window_ms (y ∷ schedule) x (inl p) h =
    subst
      (λ z.
        may_need_catch_up z.1 now_ms window_ms ≡ true
        → IsListed z (due_streams true now_ms window_ms (y ∷ schedule)).0
          × (member z.0 (due_streams true now_ms window_ms (y ∷ schedule)).1 ≡ true))
      p (λ k. rw (k, eq_refl y.0) (inl refl, refl)) h
catch_up-IsListed now_ms window_ms (y ∷ schedule) x (inr l) h =
    let (listed, id) = catch_up-IsListed now_ms window_ms schedule x l h in
    (file_stream-keeps x y _ _ _ listed, file_stream-keeps_id x.0 y _ _ _ id)

may_be_due-advance : (s a l : Bool) → a ≡ true → (s || (a || l)) ≡ true
may_be_due-advance s a l h = ground arith

may_be_due-late : (s a c l : Bool) → c ≡ true → l ≡ true → (s || (a || (c && l))) ≡ true
may_be_due-late s a c l h k = ground arith

-- A stream of the schedule with a reminder due for a client's setting, a catch-up only if catch-ups are
-- enabled, is among the due streams, and the setting passes the pre-filter for it.
pub due_reminder_is_found :
    (schedule : Dict StreamScheduleEntry) (video_id : String) (entry : StreamScheduleEntry)
    (setting : LiveReminderSetting) (now_ms window_ms : ℕ) (enabled : Bool) (saved_at : Option ℕ)
    → IsListed (video_id, entry) schedule
    → IsReminderDue setting entry now_ms window_ms enabled saved_at
    → let found = due_streams enabled now_ms window_ms schedule in
      IsListed (video_id, entry) found.0
      × (setting_may_be_due setting entry now_ms window_ms (member video_id found.1) ≡ true)
unfolding setting_may_be_due
due_reminder_is_found schedule video_id entry setting now_ms window_ms enabled saved_at l (inl h) =
    (
      on_time-IsListed enabled now_ms window_ms schedule (video_id, entry) l
          (start-on_time setting entry now_ms window_ms h),
      rw h refl,
    )
due_reminder_is_found schedule video_id entry setting now_ms window_ms enabled saved_at l
      (inr (inl h)) =
    (
      on_time-IsListed enabled now_ms window_ms schedule (video_id, entry) l
          (setting_advance-on_time setting entry now_ms window_ms h),
      may_be_due-advance _ _ _ h,
    )
due_reminder_is_found schedule video_id entry setting now_ms window_ms enabled saved_at l
      (inr (inr (on, h))) =
    rw on (
      let (listed, id) =
        catch_up-IsListed now_ms window_ms schedule (video_id, entry) l
          (setting_catch_up-may setting entry now_ms window_ms saved_at h) in
      (
        listed,
        may_be_due-late _ _ _ _ id
            (setting_catch_up-early setting entry now_ms window_ms saved_at h),
      ))
