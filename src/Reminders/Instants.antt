-- ===== src/Reminders/Instants.antt =====
-- src/notifications/notification_dispatcher.py: `_scheduled_instant` and `_evaluation_instants`, the
-- instants that a run serves. Those of the run are in microseconds, the instants served in
-- milliseconds. Subtraction stops at 0, which a clock later than 1970-01-01 00:10 never meets. The loop
-- has fuel for the ten windows of the lookback.
use yobi_analytics.Prelude.{
  ℕ, zero, suc, ◌+◌, ◌-◌, ◌*◌, ◌||◌, Option, none, some, List, [], ◌∷◌, ◌++◌, leb, ltb, ◌==◌, min,
  max, if◌then◌else◌,
}
use yobi_analytics.Reminders.{minute_ms, epoch_ms}

-- `_REMINDER_WINDOW`
abbrev pub reminder_window_ms : ℕ
reminder_window_ms = minute_ms

abbrev pub max_recovery_lookback_ms : ℕ
max_recovery_lookback_ms = 10 * minute_ms

abbrev pub recovery_jitter_ms : ℕ
recovery_jitter_ms = 30000

-- `scheduled` is the aware instant of the event's scheduledTime, if it has one.
unfoldable pub scheduled_instant : (scheduled : Option ℕ) (now : ℕ) → Option ℕ
scheduled_instant none now = none
scheduled_instant (some scheduled) now =
    if ltb now scheduled || ltb (scheduled + max_recovery_lookback_ms * 1000) now
    then none
    else some scheduled

abbrev pub or_now : Option ℕ → ℕ → ℕ
or_now none now = now
or_now (some scheduled) now = scheduled

-- `last_ms`: what was served last, or two windows ago in a cold container, no further back than the
-- lookback.
abbrev pub or_cold : Option ℕ → (anchor_ms : ℕ) → ℕ
or_cold none anchor_ms = anchor_ms - 2 * reminder_window_ms
or_cold (some last) anchor_ms = last

unfoldable pub last_ms_of : (last_served : Option ℕ) (anchor_ms : ℕ) → ℕ
last_ms_of last_served anchor_ms =
    max (or_cold last_served anchor_ms) (anchor_ms - max_recovery_lookback_ms)

-- The loop, from the instant `candidate` on.
unfoldable pub fill_instants : (fuel last_ms limit candidate : ℕ) → List ℕ
fill_instants zero last_ms limit candidate = []
fill_instants (suc fuel) last_ms limit candidate =
    let effective = min candidate limit in
    let rest = fill_instants fuel last_ms limit (candidate + reminder_window_ms) in
    if leb effective last_ms
    then []
    else if effective == limit
    then effective ∷ []
    else effective ∷ rest

unfoldable pub instants_since : (last_ms anchor_ms : ℕ) → List ℕ
instants_since last_ms anchor_ms =
    if leb anchor_ms (last_ms + reminder_window_ms + recovery_jitter_ms)
    then anchor_ms ∷ []
    else fill_instants 10 last_ms (anchor_ms - reminder_window_ms) (last_ms + reminder_window_ms)
      ++ (anchor_ms ∷ [])

unfoldable pub anchor_ms_of : (scheduled : Option ℕ) (now : ℕ) → ℕ
anchor_ms_of scheduled now = epoch_ms (or_now (scheduled_instant scheduled now) now)

unfoldable pub evaluation_instants : (last_served scheduled : Option ℕ) (now : ℕ) → List ℕ
evaluation_instants last_served scheduled now =
    let anchor_ms = anchor_ms_of scheduled now in
    instants_since (last_ms_of last_served anchor_ms) anchor_ms
