-- ===== src/Reminders/Deliver.antt =====
-- src/notifications/notification_dispatcher.py: `_deliver_reminders_if_due`, the reminders of one stream
-- to one client in one run, with `_deliver_catch_up_advance_if_due` and `_recovery_allows`.
use yobi_analytics.Prelude.{
  ℕ, ◌+◌, ◌*◌, String, Bool, true, false, not, ◌&&◌, ◌||◌, Option, none, some, List, [], ◌∷◌, leb,
  ltb, if◌then◌else◌,
}
use yobi_analytics.DeliveryLog.{Key, LogTable}
use yobi_analytics.Reminders.{
  AdvanceReminder, LiveReminderSetting, FirstSeen, minute_ms, offset_ms, epoch_ms,
  catch_up_min_remaining_ms, is_saved_by, is_advance_reminder_due, is_start_reminder_due,
  is_advance_catch_up_due,
}
use yobi_analytics.Reminders.Send.{SendResult, sent, not_sent, raised, Attempt, send_reminder}

-- `_START_RECOVERY_GRACE`
abbrev pub start_recovery_grace_ms : ℕ
start_recovery_grace_ms = 5 * minute_ms

-- `all(moment is not None and ... <= fire_at_ms for moment in saved_at)`
abbrev pub all_saved_by : (start offset : ℕ) → List (Option ℕ) → Bool
all_saved_by start offset [] = true
all_saved_by start offset (moment ∷ saved_at) =
    is_saved_by start offset moment && all_saved_by start offset saved_at

-- `_recovery_allows`, of an advance reminder and of a start reminder.
unfoldable pub recovery_allows_advance :
    (start now_ms : ℕ) → Option AdvanceReminder → List (Option ℕ) → Bool
recovery_allows_advance start now_ms none saved_at = false
recovery_allows_advance start now_ms (some a) saved_at =
    if ltb start (now_ms + catch_up_min_remaining_ms)
    then false
    else all_saved_by start (offset_ms a) saved_at

unfoldable pub recovery_allows_start : (start now_ms : ℕ) → List (Option ℕ) → Bool
recovery_allows_start start now_ms saved_at =
    if leb (start + start_recovery_grace_ms) now_ms then false else all_saved_by start 0 saved_at

-- What one call is given. `allowed_now` and `allowed_at` are what should_notify_now says of the
-- client's preference now and at `start - offset`; `catch_up_enabled` is the switch, and
-- `earlier_handled` what `_earlier_advance_reminder_handled` answers. The three `delivers` are what the
-- push service would answer, and the three clocks what the log reads at each sending.
pub record Delivery : Type 0 where
  pub setting : LiveReminderSetting
  pub start : ℕ
  pub status : Option String
  pub first_seen : Option FirstSeen
  pub subscription_updated_at : Option ℕ
  pub preference_updated_at : Option ℕ
  pub now : ℕ
  pub evaluate_at : ℕ
  pub recovered : Bool
  pub window_ms : ℕ
  pub allowed_now : Bool
  pub allowed_at : (offset : ℕ) → Bool
  pub catch_up_enabled : Bool
  pub earlier_handled : Bool
  pub advance_key : Key
  pub advance_legacy_key : Key
  pub start_key : Key
  pub start_legacy_key : Key
  pub legacy_window : ℕ
  pub advance_delivers : Bool
  pub catch_up_delivers : Bool
  pub start_delivers : Bool
  pub advance_clock : ℕ
  pub catch_up_clock : ℕ
  pub start_clock : ℕ

-- `not _suppressed_at(preference, creator, fire_at)`
abbrev pub is_allowed_at : Delivery → Option AdvanceReminder → Bool
is_allowed_at d none = true
is_allowed_at d (some a) = d.allowed_at (offset_ms a)

abbrev pub saved_at : Delivery → List (Option ℕ)
saved_at d = d.setting.updated_at ∷ d.subscription_updated_at ∷ d.preference_updated_at ∷ []

unfoldable pub advance_wanted : Delivery → Bool
unfolding recovery_allows_advance
advance_wanted d =
    is_advance_reminder_due d.setting d.start (epoch_ms d.evaluate_at) d.window_ms
    && (is_allowed_at d d.setting.advance_reminder
        && (not d.recovered
            || recovery_allows_advance d.start (epoch_ms d.now) d.setting.advance_reminder
                (saved_at d)))

unfoldable pub catch_up_wanted : Delivery → Bool
catch_up_wanted d =
    not d.recovered
    && (is_advance_catch_up_due d.setting d.start (epoch_ms d.now) d.window_ms d.status d.first_seen
          d.subscription_updated_at
        && (is_allowed_at d d.setting.advance_reminder
            && (d.catch_up_enabled && not d.earlier_handled)))

unfoldable pub start_wanted : Delivery → Bool
unfolding recovery_allows_start
start_wanted d =
    is_start_reminder_due d.setting d.start (epoch_ms d.evaluate_at) d.window_ms
    && (d.allowed_at 0
        && (not d.recovered || recovery_allows_start d.start (epoch_ms d.now) (saved_at d)))

-- The three attempts in their order.
pub record Delivered (State : Type 0) : Type 0 where
  pub advance : Attempt State
  pub catch_up : Attempt State
  pub at_start : Attempt State

abbrev pub no_attempt : {State : Type 0} → State → Attempt State
no_attempt s = record { result = not_sent; pushed = false; log = s }

abbrev pub is_raised : SendResult → Bool
is_raised raised = true
is_raised _ = false

module _ (t : LogTable) (d : Delivery) where
  unfoldable pub send_advance : t.State → Attempt t.State
  send_advance s =
      if advance_wanted d
      then send_reminder t d.advance_delivers d.advance_key d.advance_legacy_key false d.now
          d.advance_clock d.legacy_window s
      else no_attempt s

  unfoldable pub send_catch_up : t.State → Attempt t.State
  send_catch_up s =
      if catch_up_wanted d
      then send_reminder t d.catch_up_delivers d.advance_key d.advance_legacy_key false d.now
          d.catch_up_clock d.legacy_window s
      else no_attempt s

  unfoldable pub send_start : t.State → Attempt t.State
  send_start s =
      if start_wanted d
      then send_reminder t d.start_delivers d.start_key d.start_legacy_key false d.now d.start_clock
          d.legacy_window s
      else no_attempt s

  unfoldable pub after_catch_up : (advance catch_up : Attempt t.State) → Delivered t.State
  after_catch_up advance catch_up = record {
    advance = advance;
    catch_up = catch_up;
    at_start = send_start catch_up.log;
  }

  -- An error of the first sending leaves the function before the two others; one of the catch-up is
  -- caught.
  unfoldable pub after_advance : Attempt t.State → Delivered t.State
  after_advance advance =
      if is_raised advance.result
      then record {
        advance = advance;
        catch_up = no_attempt advance.log;
        at_start = no_attempt advance.log;
      }
      else after_catch_up advance (send_catch_up advance.log)

  unfoldable pub deliver_if : (allowed_now : Bool) → t.State → Delivered t.State
  deliver_if true s = after_advance (send_advance s)
  deliver_if false s = record {
    advance = no_attempt s;
    catch_up = no_attempt s;
    at_start = no_attempt s;
  }

  unfoldable pub deliver_reminders_if_due : t.State → Delivered t.State
  deliver_reminders_if_due s = deliver_if d.allowed_now s

abbrev pub is_sent : SendResult → Bool
is_sent sent = true
is_sent _ = false

-- `sent_any`
abbrev pub sent_any : {State : Type 0} → Delivered State → Bool
sent_any r = is_sent r.advance.result || (is_sent r.catch_up.result || is_sent r.at_start.result)
