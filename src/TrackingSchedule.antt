-- ===== src/TrackingSchedule.antt =====
-- src/tracking/tracking_schedule.py: which videos are checked on a day, and how a check moves a
-- video's activity state. A date is its ordinal, an instant the microseconds since the epoch.
pub mod Due
pub mod Selection
pub mod Bootstrap
pub mod Demotion
pub mod Tests
use yobi_analytics.Prelude.{
  ℕ, ◌+◌, ◌-◌, ◌*◌, ◌%◌, String, Bool, true, false, ◌&&◌, ◌||◌, Option, none, some, List, [], ◌∷◌,
  leb, ltb, ◌==◌, str_eq, if◌then◌else◌,
}
use yobi_analytics.Prelude.Sort.{sorted}
use yobi_analytics.Prelude.TextOrder.{text_le}

abbrev pub recent_max_age_days : ℕ
recent_max_age_days = 7

abbrev pub unknown_cycle_days : ℕ
unknown_cycle_days = 2

abbrev pub warm_cycle_days : ℕ
warm_cycle_days = 3

abbrev pub cold_cycle_days : ℕ
cold_cycle_days = 15

abbrev pub min_snapshots_before_cold_eligible : ℕ
min_snapshots_before_cold_eligible = 3

abbrev pub demotion_quiet_streak_hot_to_warm : ℕ
demotion_quiet_streak_hot_to_warm = 2

abbrev pub demotion_quiet_streak_warm_to_cold : ℕ
demotion_quiet_streak_warm_to_cold = 3

-- `unrecognized` is any other text, or none at all.
pub data ActivityState : Type 0 where
  unknown hot warm cold : ActivityState
  unrecognized : Option String → ActivityState

-- `_CYCLE_DAYS_BY_STATE.get(activity_state)`
pub cycle_days_by_state : ActivityState → Option ℕ
cycle_days_by_state unknown = some unknown_cycle_days
cycle_days_by_state warm = some warm_cycle_days
cycle_days_by_state cold = some cold_cycle_days
cycle_days_by_state _ = none

abbrev pub is_hot_state : ActivityState → Bool
is_hot_state hot = true
is_hot_state _ = false

-- A candidate of the selection; `published_on` is the date of `publishedAt`, none where it does not
-- parse.
pub record Candidate : Type 0 where
  pub video_id : String
  pub published_on : Option ℕ
  pub activity_state : ActivityState

-- The digest is the MD5 of the id, read as a number; nothing is assumed of it.
module _ (digest : String → ℕ) where
  pub rotation_slot : String → ℕ → ℕ
  rotation_slot video_id cycle_days = digest video_id % cycle_days

  -- The rule for a video whose free first week is over.
  pub is_due_by_cycle : String → ActivityState → ℕ → Bool
  unfolding cycle_days_by_state rotation_slot
  is_due_by_cycle video_id activity_state as_of =
      if is_hot_state activity_state then true else elim (cycle_days_by_state activity_state) [
        | none ↦ true
        | some cycle_days ↦ rotation_slot video_id cycle_days == as_of % cycle_days
      ]

  -- `age_days <= RECENT_MAX_AGE_DAYS`, without the subtraction: a video may be published later
  -- than `as_of`.
  unfoldable pub is_due_today : Candidate → ℕ → Bool
  unfolding is_due_by_cycle
  is_due_today c as_of = elim c.published_on [
    | none ↦ true
    | some published_on ↦
        if leb as_of (published_on + recent_max_age_days)
        then true
        else is_due_by_cycle c.video_id c.activity_state as_of
  ]

  pub due_ids : List Candidate → ℕ → List String
  due_ids [] as_of = []
  due_ids (c ∷ cs) as_of =
      let rest = due_ids cs as_of in if is_due_today c as_of then c.video_id ∷ rest else rest

  unfoldable pub select_due_video_ids : List Candidate → ℕ → List String
  unfolding due_ids
  select_due_video_ids candidates as_of = sorted text_le (due_ids candidates as_of)

-- Python's float: what the growth measures use of it. Nothing is assumed of it.
pub record Floats : Type 1 where
  pub Float : Type 0
  -- `float(n)`, and the literal `m / 10 ** e`
  pub of_ℕ : ℕ → Float
  pub decimal : ℕ → ℕ → Float
  pub divide : Float → Float → Float
  pub times : Float → Float → Float
  pub maximum : Float → Float → Float
  -- `x >= y`
  pub at_least : Float → Float → Bool

pub data Reason : Type 0 where
  bootstrap_first_snapshot strong_growth bootstrap_awaiting_more_snapshots : Reason
  moderate_growth_after_bootstrap quiet_after_bootstrap moderate_growth : Reason
  demoted_after_quiet_streak quiet_observation : Reason

-- `_DEMOTION_THRESHOLD_BY_STATE.get(current_state)`
pub demotion_threshold : ActivityState → Option ℕ
demotion_threshold hot = some demotion_quiet_streak_hot_to_warm
demotion_threshold warm = some demotion_quiet_streak_warm_to_cold
demotion_threshold _ = none

-- `_DEMOTE_TO[current_state]`, which is read for "Hot" and "Warm" alone.
pub demote_to : ActivityState → ActivityState
demote_to hot = warm
demote_to _ = cold

module _ (fl : Floats) where
  open fl use {Float, of_ℕ, decimal, divide, times, maximum, at_least}

  pub record ClassificationResult : Type 0 where
    pub activity_state : ActivityState
    pub snapshot_count : ℕ
    pub quiet_streak : ℕ
    pub reason : Reason
    pub percent_per_day : Option Float
    pub avg_views_per_day : Option Float

  -- The percent of the previous views and the views, per day. A difference of instants below 0 is
  -- 0 here: the maximum with 1e-9 makes both the same.
  unfoldable pub growth_per_day : ℕ → ℕ → ℕ → ℕ → Float × Float
  growth_per_day previous_view_count new_view_count previous_checked_at observed_at =
      let total_seconds = divide (of_ℕ (observed_at - previous_checked_at)) (of_ℕ 1000000) in
      let elapsed_days = maximum (divide total_seconds (of_ℕ 86400)) (decimal 1 9) in
      let delta_views = of_ℕ (new_view_count - previous_view_count) in
      let avg_views_per_day = divide delta_views elapsed_days in
      if leb previous_view_count 0 then (decimal 0 0, avg_views_per_day) else (
        times (divide (divide delta_views (of_ℕ previous_view_count)) elapsed_days) (of_ℕ 100),
        avg_views_per_day,
      )

  -- Hot from 1000 views a day, or from 2 percent a day with 100 views a day.
  unfoldable pub is_hot : Float → Float → Bool
  is_hot percent_per_day avg_views_per_day =
      at_least avg_views_per_day (of_ℕ 1000)
      || at_least percent_per_day (decimal 20 1) && at_least avg_views_per_day (of_ℕ 100)

  unfoldable pub is_warm : Float → Float → Bool
  is_warm percent_per_day avg_views_per_day =
      at_least avg_views_per_day (of_ℕ 100) || at_least percent_per_day (decimal 5 1)

-- What an observation decides: the next state and quiet streak, and why.
pub record Verdict : Type 0 where
  pub state : ActivityState
  pub streak : ℕ
  pub because : Reason

abbrev verdict : ActivityState → ℕ → Reason → Verdict
verdict s n r = record { state = s; streak = n; because = r }

-- The branch `current_state == "Unknown"`.
pub bootstrap_verdict : (is_hot is_warm : Bool) (new_snapshot_count : ℕ) → Verdict
bootstrap_verdict is_hot is_warm new_snapshot_count =
    if is_hot
    then verdict hot 0 strong_growth
    else if ltb new_snapshot_count min_snapshots_before_cold_eligible
    then verdict unknown 0 bootstrap_awaiting_more_snapshots
    else if is_warm
    then verdict warm 0 moderate_growth_after_bootstrap
    else verdict cold 0 quiet_after_bootstrap

-- A quiet observation of a state that is not "Unknown".
pub quiet_verdict : ActivityState → ℕ → Verdict
unfolding demotion_threshold demote_to
quiet_verdict current_state quiet_streak = elim (demotion_threshold current_state) [
  | none ↦ verdict current_state (quiet_streak + 1) quiet_observation
  | some threshold ↦
      if leb threshold (quiet_streak + 1)
      then verdict (demote_to current_state) 0 demoted_after_quiet_streak
      else verdict current_state (quiet_streak + 1) quiet_observation
]

pub settled_verdict : (is_hot is_warm : Bool) → ActivityState → ℕ → Verdict
unfolding quiet_verdict
settled_verdict is_hot is_warm current_state quiet_streak =
    if is_hot
    then verdict hot 0 strong_growth
    else if is_warm
    then verdict (if is_hot_state current_state then hot else warm) 0 moderate_growth
    else quiet_verdict current_state quiet_streak

unfoldable pub growth_verdict :
    (is_hot is_warm : Bool) → ActivityState → (new_snapshot_count quiet_streak : ℕ) → Verdict
unfolding bootstrap_verdict settled_verdict
growth_verdict is_hot is_warm unknown new_snapshot_count quiet_streak =
    bootstrap_verdict is_hot is_warm new_snapshot_count
growth_verdict is_hot is_warm current_state new_snapshot_count quiet_streak =
    settled_verdict is_hot is_warm current_state quiet_streak

-- The scheduler state that Video Master keeps of a video. A stored timestamp is the instant of its
-- text, with an offset.
pub record Tracked : Type 0 where
  pub activity_state : ActivityState
  pub snapshot_count : ℕ
  pub quiet_streak : ℕ
  pub last_view_count : Option ℕ
  pub last_checked_at : Option ℕ

module _ (fl : Floats) where
  abbrev bootstrap_result : ℕ → ClassificationResult fl
  bootstrap_result new_snapshot_count = record {
    activity_state = unknown;
    snapshot_count = new_snapshot_count;
    quiet_streak = 0;
    reason = bootstrap_first_snapshot;
    percent_per_day = none;
    avg_views_per_day = none;
  }

  pub classify_growth : ActivityState → ℕ → ℕ → fl.Float × fl.Float → ClassificationResult fl
  classify_growth current_state new_snapshot_count quiet_streak (percent, avg) =
      let v =
        growth_verdict (is_hot fl percent avg) (is_warm fl percent avg) current_state
          new_snapshot_count quiet_streak in
      record {
        activity_state = v.state;
        snapshot_count = new_snapshot_count;
        quiet_streak = v.streak;
        reason = v.because;
        percent_per_day = some percent;
        avg_views_per_day = some avg;
      }

  -- The branch for a video with an earlier observation, if it has one.
  pub classify_from : Tracked → Option ℕ → Option ℕ → ℕ → ℕ → ClassificationResult fl
  unfolding classify_growth
  classify_from t (some previous_view_count) (some previous_checked_at) new_view_count observed_at =
      classify_growth t.activity_state (t.snapshot_count + 1) t.quiet_streak
        (growth_per_day fl previous_view_count new_view_count previous_checked_at observed_at)
  classify_from t _ _ new_view_count observed_at = bootstrap_result (t.snapshot_count + 1)

  unfoldable pub classify_after_observation : Tracked → ℕ → ℕ → ClassificationResult fl
  unfolding classify_from
  classify_after_observation t new_view_count observed_at =
      classify_from t t.last_view_count t.last_checked_at new_view_count observed_at
