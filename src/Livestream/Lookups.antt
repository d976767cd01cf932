-- ===== src/Livestream/Lookups.antt =====
-- `_evaluate_archive`, `_archive_window_open` and `_run_archive_lookups` of
-- src/tracking/livestream_lifecycle.py.
use yobi_analytics.Prelude.{
  ℕ, ◌+◌, String, Bool, true, false, not, ◌&&◌, ◌||◌, Option, none, some, List, [], ◌∷◌, ◌++◌, leb,
  str_eq, Dict, lookup, insert, keys, member, keep, if◌then◌else◌,
}
use yobi_analytics.Livestream.{
  Probe, Reason, not_returned_by_youtube, metadata_missing, channel_mismatch,
  broadcast_not_finalized, not_public, still_processing, not_embeddable, lookup_window_elapsed,
  Facts, Archive, archive_pending, archive_available, archive_handed_off, EndState, end_state_ended,
  Entry, WatchState, is_given, is_past, archive_lookup_max_attempts, archive_lookup_min_window,
  archive_lookup_max_age,
}

pub data Evaluation : Type 0 where
  unusable : Reason → Evaluation
  usable : Facts → Evaluation

-- `expected_channel_id and probe["channelId"] != expected_channel_id`
unfoldable pub is_mismatch : (expected actual : Option String) → Bool
is_mismatch none actual = false
is_mismatch (some c) none = not (str_eq c "")
is_mismatch (some c) (some d) = not (str_eq c "") && not (str_eq d c)

abbrev pub is_some_text : String → Option String → Bool
is_some_text t none = false
is_some_text t (some s) = str_eq s t

abbrev pub is_absent : Option ℕ → Bool
is_absent none = true
is_absent (some _) = false

-- `probe.get("embeddable") is False`
abbrev pub is_false : Option Bool → Bool
is_false (some false) = true
is_false _ = false

abbrev pub facts_of : Probe → Facts
facts_of p = record {
  title = p.title;
  channel_id = p.channel_id;
  actual_start_time = p.actual_start_time;
  actual_end_time = p.actual_end_time;
  published_at = p.published_at;
  view_count = p.view_count;
}

-- The facts of an archive that is not usable are read by no caller and left out.
unfoldable pub evaluate_archive : Option Probe → Option String → Evaluation
unfolding is_mismatch
evaluate_archive none expected_channel_id = unusable not_returned_by_youtube
evaluate_archive (some p) expected_channel_id =
    if not (is_given p.title) || not (is_given p.channel_id)
    then unusable metadata_missing
    else if is_mismatch expected_channel_id p.channel_id
    then unusable channel_mismatch
    else if is_absent p.actual_end_time
    then unusable broadcast_not_finalized
    else if not (is_some_text "public" p.privacy_status || is_some_text "unlisted" p.privacy_status)
    then unusable not_public
    else if not (is_some_text "processed" p.upload_status)
    then unusable still_processing
    else if is_false p.embeddable
    then unusable not_embeddable
    else usable (facts_of p)

-- The instant that the window is measured from.
abbrev pub window_start : Entry → ℕ
window_start e = elim e.actual_end [ none ↦ e.confirmed_ended_at | some finished ↦ finished ]

-- `moment - reference < ARCHIVE_LOOKUP_MIN_WINDOW`
unfoldable pub archive_window_open : Entry → ℕ → Bool
archive_window_open e moment = not (leb (window_start e + archive_lookup_min_window) moment)

abbrev pub is_ended : EndState → Bool
is_ended end_state_ended = true
is_ended _ = false

abbrev pub is_archive_pending : Archive → Bool
is_archive_pending archive_pending = true
is_archive_pending _ = false

-- The entry still awaits an archive lookup.
abbrev pub is_awaiting : Entry → Bool
is_awaiting e = is_ended e.end_state && is_archive_pending e.archive

abbrev pub watch_or_new : Option WatchState → WatchState
watch_or_new none = record { attempts = 0; last_reason = none; last_checked_at = none }
watch_or_new (some state) = state

abbrev pub reason_or : Reason → Option Reason → Reason
reason_or r none = r
reason_or r (some s) = s

-- `list(dict.fromkeys(ids))`: each id once, where it stands first.
unfoldable pub from_keys : List String → List String
from_keys [] = []
from_keys (x ∷ xs) = x ∷ keep (λ y. not (str_eq y x)) (from_keys xs)

-- What one lookup leaves: the value under "archive", or the state of the next watch.
pub data Step : Type 0 where
  settle : Archive → Step
  watch_on : WatchState → Step

-- A lookup that YouTube did not answer.
unfoldable pub unanswered_step : Entry → WatchState → ℕ → Step
unanswered_step e state moment =
    if is_past e.confirmed_ended_at archive_lookup_max_age moment
    then settle (
        archive_handed_off state.attempts moment
          (reason_or lookup_window_elapsed state.last_reason))
    else watch_on state

-- A lookup with its answer evaluated.
unfoldable pub answered_step : Evaluation → Entry → WatchState → ℕ → Step
unfolding archive_window_open
answered_step (usable facts) e state moment =
    settle (archive_available (state.attempts + 1) moment facts)
answered_step (unusable reason) e state moment =
    if leb archive_lookup_max_attempts (state.attempts + 1) && not (archive_window_open e moment)
    then settle (archive_handed_off (state.attempts + 1) moment reason)
    else watch_on (record {
      attempts = state.attempts + 1;
      last_reason = some reason;
      last_checked_at = some moment;
    })

module _ (channel_of : Option String → Option String) (probes : Dict Probe) (answered : List String)
    (moment : ℕ) where
  unfoldable pub lookup_step : String → Entry → WatchState → Step
  unfolding unanswered_step answered_step evaluate_archive
  lookup_step video_id e state =
      if member video_id answered
      then answered_step
          (evaluate_archive (lookup video_id probes) (channel_of e.stream.creator_id)) e state
          moment
      else unanswered_step e state moment

  abbrev pub settle_in : String → Entry → Step → Dict Entry → Dict Entry
  settle_in video_id e (settle a) ended = insert video_id (record e { archive = a }) ended
  settle_in video_id e (watch_on _) ended = ended

  abbrev pub watch_in : String → Step → Dict WatchState → Dict WatchState
  watch_in video_id (settle _) next_watch = next_watch
  watch_in video_id (watch_on state) next_watch = (video_id, state) ∷ next_watch

  -- The lookup of one id, given the ended map as the ids before it left it.
  unfoldable pub step_of : Dict WatchState → String → Option Entry → Option (Entry × Step)
  unfolding lookup_step
  step_of watch video_id none = none
  step_of watch video_id (some e) =
      if is_awaiting e
      then some (e, lookup_step video_id e (watch_or_new (lookup video_id watch)))
      else none

  abbrev pub settled : String → Option (Entry × Step) → Dict Entry → Dict Entry
  settled video_id none ended = ended
  settled video_id (some (e, step)) ended = settle_in video_id e step ended

  abbrev pub watched : String → Option (Entry × Step) → Dict WatchState → Dict WatchState
  watched video_id none next_watch = next_watch
  watched video_id (some (e, step)) next_watch = watch_in video_id step next_watch

  unfoldable pub run_lookups :
      Dict WatchState → List String → Dict Entry → Dict Entry × Dict WatchState
  unfolding step_of
  run_lookups watch [] ended = (ended, [])
  run_lookups watch (video_id ∷ ids) ended =
      let step = step_of watch video_id (lookup video_id ended) in
      let (ended', next_watch) = run_lookups watch ids (settled video_id step ended) in
      (ended', watched video_id step next_watch)

  unfoldable pub run_archive_lookups :
      Dict Entry → Dict WatchState → List String → Dict Entry × Dict WatchState
  unfolding run_lookups from_keys
  run_archive_lookups ended watch newly_ended =
      run_lookups watch (from_keys (newly_ended ++ keys watch)) ended
