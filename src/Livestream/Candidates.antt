-- ===== src/Livestream/Candidates.antt =====
-- `_ended_entry` and `_resolve_candidates` of src/tracking/livestream_lifecycle.py.
use yobi_analytics.Prelude.{
  ℕ, ◌+◌, String, Bool, true, false, Option, none, some, List, [], ◌∷◌, leb, Dict, lookup, insert,
  has, member, if◌then◌else◌,
}
use yobi_analytics.Livestream.{
  Slim, Probe, archive_pending, archive_unavailable, EndState, end_state_ended,
  end_state_unavailable, Entry, Candidate, is_past, is_completed_premiere, max_pending_attempts,
  pending_max_age,
}
use yobi_analytics.Livestream.Lookups.{is_some_text, is_ended}

-- What Video Master answers in this cycle: `set_video_classification` and `set_video_live_status`
-- return true or false, `get_video` a record or none, and each may raise.
pub data Written : Type 0 where
  written rejected write_failed : Written

pub data Found : Type 0 where
  missing read_failed : Found
  found : (content_type : Option String) → Found

pub record VideoMaster : Type 0 where
  pub set_video_classification : String → Written
  pub get_video : String → Found
  pub set_video_live_status : String → Written

abbrev pub is_upload : Found → Bool
is_upload (found content_type) = is_some_text "upload" content_type
is_upload _ = false

-- The side write for a confirmed end: false where it must be tried again.
unfoldable pub is_persisted : VideoMaster → String → Probe → Bool
unfolding is_completed_premiere
is_persisted master video_id p =
    if is_completed_premiere p.published_at p.actual_start_time p.actual_end_time
    then elim (master.set_video_classification video_id) [
      | written ↦ true
      | rejected ↦ is_upload (master.get_video video_id)
      | write_failed ↦ false
    ]
    else elim (master.set_video_live_status video_id) [
      | written ↦ true
      | rejected ↦ false
      | write_failed ↦ false
    ]

abbrev pub stream_or_id : String → Option Slim → Slim
stream_or_id video_id (some s) = s
stream_or_id video_id none = record {
  video_id = video_id;
  creator_id = none;
  title = none;
  scheduled_start = none;
  actual_start = none;
}

-- The candidate's attempts are counted on; it is kept while there are some left.
unfoldable pub count_attempt : Candidate → Option Candidate
count_attempt state =
    if leb max_pending_attempts (state.attempts + 1)
    then none
    else some (record state { attempts = state.attempts + 1 })

-- What is decided of a candidate: the end to record, and the candidate if it is kept.
pub record Decision : Type 0 where
  pub recorded : Option Entry
  pub kept : Option Candidate

module _ (master : VideoMaster) (probes : Dict Probe) (answered : List String)
    (previous_refreshed_at : Option ℕ) (moment : ℕ) where
  unfoldable pub ended_entry : Slim → EndState → Option ℕ → Entry
  ended_entry stream end_state actual_end = record {
    stream = stream;
    last_seen_live_at = previous_refreshed_at;
    confirmed_ended_at = moment;
    actual_end = actual_end;
    end_state = end_state;
    archive = if is_ended end_state then archive_pending else archive_unavailable;
  }

  abbrev pub is_too_old : Candidate → Bool
  is_too_old state = elim state.first_seen_missing_at [
    | none ↦ false
    | some first_seen ↦ is_past first_seen pending_max_age moment
  ]

  -- `ended[video_id] = ...` under `if video_id not in ended`.
  abbrev pub unless_recorded : Bool → Entry → Option Entry
  unless_recorded is_recorded e = if is_recorded then none else some e

  -- YouTube answered without the video.
  unfoldable pub decide_missing : String → Candidate → Bool → Decision
  unfolding ended_entry
  decide_missing video_id state is_recorded =
      if leb max_pending_attempts (state.attempts + 1)
      then record {
        recorded =
            unless_recorded is_recorded
              (ended_entry (stream_or_id video_id state.stream) end_state_unavailable none);
        kept = none;
      }
      else record { recorded = none; kept = some (record state { attempts = state.attempts + 1 }) }

  -- YouTube returned the video, with the instant of its end if it has one.
  unfoldable pub decide_found : String → Candidate → Bool → Probe → Option ℕ → Decision
  unfolding count_attempt ended_entry is_persisted
  decide_found video_id state is_recorded p none = record {
    recorded = none;
    kept = some (record state { attempts = 0 });
  }
  decide_found video_id state is_recorded p (some finished) = record {
    recorded =
        unless_recorded is_recorded
          (ended_entry (stream_or_id video_id state.stream) end_state_ended (some finished));
    kept = if is_persisted master video_id p then none else count_attempt state;
  }

  unfoldable pub decide_answered : String → Candidate → Bool → Option Probe → Decision
  unfolding decide_missing decide_found
  decide_answered video_id state is_recorded none = decide_missing video_id state is_recorded
  decide_answered video_id state is_recorded (some p) =
      decide_found video_id state is_recorded p p.actual_end_time

  unfoldable pub decide : String → Candidate → Bool → Decision
  unfolding decide_answered
  decide video_id state is_recorded =
      if is_too_old state
      then record { recorded = none; kept = none }
      else if member video_id answered
      then decide_answered video_id state is_recorded (lookup video_id probes)
      else record { recorded = none; kept = some state }

  abbrev pub record_end : String → Option Entry → Dict Entry → Dict Entry
  record_end video_id none ended = ended
  record_end video_id (some e) ended = insert video_id e ended

  abbrev pub add_newly : String → Option Entry → List String → List String
  add_newly video_id none newly_ended = newly_ended
  add_newly video_id (some e) newly_ended = video_id ∷ newly_ended

  abbrev pub add_kept : String → Option Candidate → Dict Candidate → Dict Candidate
  add_kept video_id none next_pending = next_pending
  add_kept video_id (some state) next_pending = (video_id, state) ∷ next_pending

  -- The ended map, the ids newly recorded in it and the candidates that stay.
  unfoldable pub resolve_candidates :
      Dict Candidate → Dict Entry → Dict Entry × List String × Dict Candidate
  unfolding decide
  resolve_candidates [] ended = (ended, [], [])
  resolve_candidates ((video_id, state) ∷ pending) ended =
      let d = decide video_id state (has video_id ended) in
      let (ended', newly_ended, next_pending) =
        resolve_candidates pending (record_end video_id d.recorded ended) in
      (ended', add_newly video_id d.recorded newly_ended, add_kept video_id d.kept next_pending)
