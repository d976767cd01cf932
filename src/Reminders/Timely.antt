-- ===== src/Reminders/Timely.antt =====
-- When a run of `_deliver_reminders_if_due` of src/notifications/notification_dispatcher.py hands a
-- reminder to the push service.
use yobi_analytics.Prelude.{
  ℕ, ◌+◌, ◌≤◌, ◌<◌, ◌≡◌, ◌⊎◌, refl, subst, String, Bool, true, false, not, ◌||◌, Option, none, some,
  List, arith, Bool-cases, inl, inr, if◌then◌else◌,
}
use yobi_analytics.DeliveryLog.{LogTable}
use yobi_analytics.DeliveryLog.Passing.{and_true}
use yobi_analytics.Reminders.{
  AdvanceReminder, FirstSeen, offset_ms, epoch_ms, catch_up_min_remaining_ms, is_advance_due,
  is_advance_reminder_due, is_moment_due, is_start_reminder_due, is_advance_catch_up_due,
  is_catch_up_due,
}
use yobi_analytics.Reminders.Exclusive.{IsBetween, catch_up-IsBetween}
use yobi_analytics.Reminders.Send.{Attempt}
use yobi_analytics.Reminders.Deliver.{
  Delivery, Delivered, start_recovery_grace_ms, recovery_allows_advance, recovery_allows_start,
  advance_wanted, catch_up_wanted, start_wanted, is_allowed_at, is_raised, no_attempt, send_advance,
  send_catch_up, send_start, after_advance, after_catch_up, deliver_if, deliver_reminders_if_due,
  saved_at,
}

-- The on-time window of the moment `offset` before the start.
abbrev pub IsInWindow : (offset start at_ms window_ms : ℕ) → Type 0
IsInWindow offset start at_ms window_ms =
    (start ≤ at_ms + offset) × (at_ms + offset < start + window_ms)

pub record IsAdvanceTimely (d : Delivery) : Type 0 where
  pub kind : AdvanceReminder
  pub chosen : d.setting.advance_reminder ≡ some kind
  pub allowed : d.allowed_at (offset_ms kind) ≡ true
  pub on_time : IsInWindow (offset_ms kind) d.start (epoch_ms d.evaluate_at) d.window_ms
  pub in_recovery : (d.recovered ≡ false) ⊎ (epoch_ms d.now + catch_up_min_remaining_ms ≤ d.start)

pub record IsCatchUpTimely (d : Delivery) : Type 0 where
  pub kind : AdvanceReminder
  pub chosen : d.setting.advance_reminder ≡ some kind
  pub allowed : d.allowed_at (offset_ms kind) ≡ true
  pub late : IsBetween (offset_ms kind) d.start (epoch_ms d.now) d.window_ms
  pub switch : (d.recovered ≡ false) × (d.catch_up_enabled ≡ true) × (d.earlier_handled ≡ false)

pub record IsStartTimely (d : Delivery) : Type 0 where
  pub chosen : d.setting.notify_at_start ≡ true
  pub allowed : d.allowed_at 0 ≡ true
  pub on_time : IsInWindow 0 d.start (epoch_ms d.evaluate_at) d.window_ms
  pub in_recovery : (d.recovered ≡ false) ⊎ (epoch_ms d.now < d.start + start_recovery_grace_ms)

unless : {P : Type 0} (b : Bool) → (b ≡ true → P) → (b ≡ false) ⊎ P
unless true f = inr (f refl)
unless false f = inl refl

advance_due-on_time :
    (r : Option AdvanceReminder) (start at_ms window_ms : ℕ)
    → is_advance_due r start at_ms window_ms ≡ true
    → (a : AdvanceReminder) × (r ≡ some a) × IsInWindow (offset_ms a) start at_ms window_ms
unfolding is_advance_due is_moment_due
advance_due-on_time none start at_ms window_ms h = absurd cc
advance_due-on_time (some a) start at_ms window_ms h = (a, refl, (ground arith, ground arith))

recovery-early :
    (start now_ms : ℕ) (r : Option AdvanceReminder) (saved : List (Option ℕ)) (recovered : Bool)
    → (not recovered || recovery_allows_advance start now_ms r saved) ≡ true
    → recovered ≡ true
    → now_ms + catch_up_min_remaining_ms ≤ start
unfolding recovery_allows_advance
recovery-early start now_ms none saved recovered h e = ground arith
recovery-early start now_ms (some a) saved recovered h e = ground arith

recovery-graced :
    (start now_ms : ℕ) (saved : List (Option ℕ)) (recovered : Bool)
    → (not recovered || recovery_allows_start start now_ms saved) ≡ true
    → recovered ≡ true
    → now_ms < start + start_recovery_grace_ms
unfolding recovery_allows_start
recovery-graced start now_ms saved recovered h e = ground arith

not-true : (b : Bool) → not b ≡ true → b ≡ false
not-true b h = ground arith

module _ (d : Delivery) where
  advance_wanted-IsAdvanceTimely : advance_wanted d ≡ true → IsAdvanceTimely d
  unfolding advance_wanted is_advance_reminder_due
  advance_wanted-IsAdvanceTimely h =
      let (due, rest) = and_true _ _ h in
      let (allowed, recovery) = and_true _ _ rest in
      let (a, chosen, on_time) =
        advance_due-on_time d.setting.advance_reminder d.start (epoch_ms d.evaluate_at) d.window_ms
          due in
      record {
        kind = a;
        chosen = chosen;
        allowed = subst (λ r. is_allowed_at d r ≡ true) chosen allowed;
        on_time = on_time;
        in_recovery = unless d.recovered (
            recovery-early d.start (epoch_ms d.now) d.setting.advance_reminder (saved_at d)
              d.recovered recovery);
      }

  start_wanted-IsStartTimely : start_wanted d ≡ true → IsStartTimely d
  unfolding start_wanted is_start_reminder_due is_moment_due
  start_wanted-IsStartTimely h =
      let (due, rest) = and_true _ _ h in
      let (allowed, recovery) = and_true _ _ rest in
      let (chosen, moment) = and_true d.setting.notify_at_start _ due in
      record {
        chosen = chosen;
        allowed = allowed;
        on_time = (ground arith, ground arith);
        in_recovery =
            unless d.recovered
              (recovery-graced d.start (epoch_ms d.now) (saved_at d) d.recovered recovery);
      }

  catch_up-IsChosen :
      (r : Option AdvanceReminder) (u s : Option ℕ) (start now_ms window_ms : ℕ)
      (status : Option String) (stamp : Option FirstSeen)
      → is_catch_up_due r u s start now_ms window_ms status stamp ≡ true
      → (a : AdvanceReminder) × (r ≡ some a) × IsBetween (offset_ms a) start now_ms window_ms
  unfolding is_catch_up_due
  catch_up-IsChosen none u s start now_ms window_ms status stamp h = absurd cc
  catch_up-IsChosen (some a) u s start now_ms window_ms status stamp h =
      (a, refl, catch_up-IsBetween a u s start now_ms window_ms status stamp h)

  catch_up_wanted-IsCatchUpTimely : catch_up_wanted d ≡ true → IsCatchUpTimely d
  unfolding catch_up_wanted is_advance_catch_up_due
  catch_up_wanted-IsCatchUpTimely h =
      let (on_run, rest) = and_true (not d.recovered) _ h in
      let (due, rest') = and_true _ _ rest in
      let (allowed, switches) = and_true _ _ rest' in
      let (enabled, unhandled) = and_true d.catch_up_enabled _ switches in
      let (a, chosen, late) =
        catch_up-IsChosen d.setting.advance_reminder _ _ d.start (epoch_ms d.now) d.window_ms
          d.status d.first_seen due in
      record {
        kind = a;
        chosen = chosen;
        allowed = subst (λ r. is_allowed_at d r ≡ true) chosen allowed;
        late = late;
        switch = (not-true d.recovered on_run, enabled, not-true d.earlier_handled unhandled);
      }

module _ (t : LogTable) (d : Delivery) where
  abbrev pub IsInTime : Delivered t.State → Type 0
  IsInTime r =
      ((r.advance.pushed ≡ false) ⊎ (d.allowed_now ≡ true) × IsAdvanceTimely d)
      × ((r.catch_up.pushed ≡ false) ⊎ (d.allowed_now ≡ true) × IsCatchUpTimely d)
      × ((r.at_start.pushed ≡ false) ⊎ (d.allowed_now ≡ true) × IsStartTimely d)

  pushed-wanted :
      (b : Bool) (a : Attempt t.State) (s : t.State)
      → (if b then a else no_attempt s).pushed ≡ true
      → b ≡ true
  pushed-wanted true a s h = refl
  pushed-wanted false a s h = absurd cc

  send_advance-IsAdvanceTimely :
      (s : t.State) → (send_advance t d s).pushed ≡ true → IsAdvanceTimely d
  unfolding send_advance
  send_advance-IsAdvanceTimely s h = advance_wanted-IsAdvanceTimely d (pushed-wanted _ _ s h)

  send_catch_up-IsCatchUpTimely :
      (s : t.State) → (send_catch_up t d s).pushed ≡ true → IsCatchUpTimely d
  unfolding send_catch_up
  send_catch_up-IsCatchUpTimely s h = catch_up_wanted-IsCatchUpTimely d (pushed-wanted _ _ s h)

  send_start-IsStartTimely : (s : t.State) → (send_start t d s).pushed ≡ true → IsStartTimely d
  unfolding send_start
  send_start-IsStartTimely s h = start_wanted-IsStartTimely d (pushed-wanted _ _ s h)

  after_advance-IsInTime :
      (s : t.State) → d.allowed_now ≡ true → IsInTime (after_advance t d (send_advance t d s))
  unfolding after_advance after_catch_up
  after_advance-IsInTime s on = elim (Bool-cases (is_raised (send_advance t d s).result)) [
    | inl r ↦ rw r (unless _ (λ h. (on, send_advance-IsAdvanceTimely s h)), inl refl, inl refl)
    | inr r ↦ rw r (
      unless _ (λ h. (on, send_advance-IsAdvanceTimely s h)),
      unless _ (λ h. (on, send_catch_up-IsCatchUpTimely _ h)),
      unless _ (λ h. (on, send_start-IsStartTimely _ h)),
    )
  ]

  deliver_if-IsInTime :
      (b : Bool) (s : t.State) → (b ≡ true → d.allowed_now ≡ true) → IsInTime (deliver_if t d b s)
  unfolding deliver_if
  deliver_if-IsInTime true s on = after_advance-IsInTime s (on refl)
  deliver_if-IsInTime false s on = (inl refl, inl refl, inl refl)

  -- A reminder is handed to the push service only where the client allows it now and allowed it at the
  -- reminder's moment, and: an advance or a start reminder in its on-time window of the evaluated
  -- instant, and in a recovery at least two minutes before the start or less than five after it; a
  -- catch-up after its window has closed and at least two minutes before the start, in no recovery,
  -- with the switch on and no earlier reminder handled.
  pub pushes_are_timely : (s : t.State) → IsInTime (deliver_reminders_if_due t d s)
  unfolding deliver_reminders_if_due
  pushes_are_timely s = deliver_if-IsInTime d.allowed_now s (λ e. e)
