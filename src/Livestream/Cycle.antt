-- ===== src/Livestream/Cycle.antt =====
-- `refresh_snapshot` of src/tracking/livestream_lifecycle.py, with `_prune_ended`, and the readers
-- `read_recently_ended` and `read_available_archives`.
use yobi_analytics.Prelude.{
  ℕ, ◌+◌, ◌*◌, String, Bool, true, false, not, ◌&&◌, ◌||◌, Option, none, some, List, [], ◌∷◌, ◌++◌,
  leb, ltb, Dict, lookup, insert, has, keys, member, keep, take, length, map, if◌then◌else◌,
  is_some,
}
use yobi_analytics.Prelude.Sort.{sorted}
use yobi_analytics.Prelude.TextSets.{sorted_set}
use yobi_analytics.Livestream.{
  second, completion_min_interval, Slim, Probe, Archive, Facts, archive_available, Entry, Candidate,
  WatchState,
}
use yobi_analytics.Livestream.Lookups.{run_archive_lookups, is_some_text, is_ended}
use yobi_analytics.Livestream.Candidates.{VideoMaster, resolve_candidates}

abbrev pub recently_ended_retention : ℕ
recently_ended_retention = 36 * 3600 * second

abbrev pub recently_ended_expose : ℕ
recently_ended_expose = 24 * 3600 * second

abbrev pub recently_ended_max_entries : ℕ
recently_ended_max_entries = 300

abbrev pub later_first : String × Entry → String × Entry → Bool
later_first a b = leb b.1.confirmed_ended_at a.1.confirmed_ended_at

unfoldable pub prune_ended : Dict Entry → ℕ → Dict Entry
prune_ended ended moment =
    let kept = keep (λ e. leb moment (e.1.confirmed_ended_at + recently_ended_retention)) ended in
    if leb (length kept) recently_ended_max_entries
    then kept
    else take recently_ended_max_entries (sorted later_first kept)

pub data StreamStatus : Type 0 where
  is_live is_upcoming is_other : StreamStatus

-- A stream of the display snapshot.
pub record Stream : Type 0 where
  pub slim : Slim
  pub status : StreamStatus

-- The records `liveStreamSnapshot` and `liveStreamEnded`, where they were written.
pub record Snapshot : Type 0 where
  pub refreshed_at : Option ℕ
  pub live_baseline : List Slim
  pub pending_candidates : Dict Candidate
  pub archive_watch : Dict WatchState

pub record Stored : Type 0 where
  pub snapshot : Option Snapshot
  pub ended : Option (Dict Entry)

abbrev pub snapshot_or_empty : Option Snapshot → Snapshot
snapshot_or_empty (some s) = s
snapshot_or_empty none = record {
  refreshed_at = none;
  live_baseline = [];
  pending_candidates = [];
  archive_watch = [];
}

abbrev pub ended_or_empty : Option (Dict Entry) → Dict Entry
ended_or_empty (some d) = d
ended_or_empty none = []

-- The previous cycle finished less than 120 seconds ago.
unfoldable pub is_duplicate : Option ℕ → ℕ → Bool
is_duplicate none moment = false
is_duplicate (some refreshed) moment =
    leb refreshed moment && ltb moment (refreshed + completion_min_interval)

unfoldable pub start_has_passed : Option ℕ → ℕ → Bool
start_has_passed none moment = false
start_has_passed (some start) moment = leb start moment

-- `{stream["videoId"]: stream for stream in streams}`
unfoldable pub by_id : List Slim → Dict Slim → Dict Slim
by_id [] d = d
by_id (s ∷ streams) d = by_id streams (insert s.video_id s d)

abbrev pub is_listed_live : ℕ → Stream → Bool
is_listed_live moment s = elim s.status [
  | is_live ↦ true
  | is_upcoming ↦ start_has_passed s.slim.scheduled_start moment
  | is_other ↦ false
]

abbrev pub is_live_now : Stream → Bool
is_live_now s = elim s.status [ is_live ↦ true | is_upcoming ↦ false | is_other ↦ false ]

abbrev pub new_candidate : ℕ → Slim → Bool → Candidate
new_candidate moment stream listed = record {
  first_seen_missing_at = some moment;
  attempts = 0;
  stream = some stream;
  listed_while_ended = listed;
}

-- The streams of the baseline that are listed no more and not recorded become candidates.
unfoldable pub add_missing :
    ℕ → List String → Dict Entry → Dict Slim → Dict Candidate → Dict Candidate
add_missing moment current_ids ended [] pending = pending
add_missing moment current_ids ended ((video_id, stream) ∷ baseline) pending =
    add_missing moment current_ids ended baseline (
      if (member video_id current_ids || has video_id ended) || has video_id pending
      then pending
      else insert video_id (new_candidate moment stream false) pending)

abbrev pub has_finished : Option Probe → Bool
has_finished none = false
has_finished (some p) = is_some p.actual_end_time

-- The live-end watch: a listed stream that YouTube reports as ended becomes a candidate.
unfoldable pub add_listed :
    ℕ → Dict Probe → List String → Dict Entry → Dict Slim → Dict Candidate → Dict Candidate
add_listed moment probes answered ended [] pending = pending
add_listed moment probes answered ended ((video_id, stream) ∷ listed) pending =
    add_listed moment probes answered ended listed (
      if ((has video_id ended || has video_id pending) || not (member video_id answered))
        || not (has_finished (lookup video_id probes))
      then pending
      else insert video_id (new_candidate moment stream true) pending)

-- What `_streams_for_completion` comes to.
pub data Obtained : Type 0 where
  obtain_failed display_cooldown : Obtained
  obtained : List Stream → Obtained

pub data Refreshed : Type 0 where
  duplicate_invocation not_obtained skipped_cooldown write_failed : Refreshed
  refreshed : (stream_count : ℕ) (candidates confirmed : List String) → Refreshed

module _ (master : VideoMaster) (channel_of : Option String → Option String)
    (probe : List String → Dict Probe × List String) where
  -- The two jobs of a cycle, on one answer of YouTube: the ends of the candidates, then the archive
  -- lookups. The ended map, the ids newly in it, the next candidates and the next watch.
  unfoldable pub settle_cycle :
      Dict Probe
      → List String
      → Option ℕ
      → ℕ
      → Dict Candidate
      → Dict WatchState
      → Dict Entry
      → Dict Entry × List String × Dict Candidate × Dict WatchState
  unfolding resolve_candidates run_archive_lookups
  settle_cycle probes answered previous_refreshed_at moment pending watch ended =
      let r =
        resolve_candidates master probes answered previous_refreshed_at moment pending ended in
      let l = run_archive_lookups channel_of probes answered moment r.0 watch r.1 in
      (l.0, r.1, r.2, l.1)

  -- The candidates before YouTube is asked.
  unfoldable pub pending_of : ℕ → List Stream → Snapshot → Dict Entry → Dict Candidate
  unfolding by_id add_missing
  pending_of moment streams previous ended =
      let current_ids = map (λ s. s.slim.video_id) streams in
      add_missing moment current_ids ended (by_id previous.live_baseline []) (
        keep (λ c. not (member c.0 current_ids) || c.1.listed_while_ended)
          previous.pending_candidates)

  -- The ids of one cycle's request.
  unfoldable pub probe_ids : Dict Candidate → Dict Slim → Dict WatchState → Dict Entry → List String
  unfolding sorted_set
  probe_ids pending listed watch ended =
      sorted_set (keys pending ++ keys listed ++ keep (λ k. has k ended) (keys watch))

  -- The writes: the ended record first, then the snapshot. `ended_stored` says that the ended record
  -- holds the new map (it was the same, or its write succeeded), `snapshot_stored` that the
  -- snapshot's write succeeded.
  abbrev pub persist :
      (ended_stored snapshot_stored : Bool)
      → Dict Entry
      → Snapshot
      → Refreshed
      → Stored
      → Refreshed × Stored
  persist false _ ended snapshot summary s = (write_failed, s)
  persist true false ended snapshot summary s = (write_failed, record s { ended = some ended })
  persist true true ended snapshot summary s =
      (summary, record { snapshot = some snapshot; ended = some ended })

  unfoldable pub complete_cycle :
      (ended_stored snapshot_stored : Bool) → ℕ → List Stream → Stored → Refreshed × Stored
  unfolding settle_cycle pending_of probe_ids prune_ended by_id add_listed
  complete_cycle ended_stored snapshot_stored moment streams s =
      let previous = snapshot_or_empty s.snapshot in
      let ended = prune_ended (ended_or_empty s.ended) moment in
      let missing = pending_of moment streams previous ended in
      let listed = by_id (map (λ x. x.slim) (keep (is_listed_live moment) streams)) [] in
      let (probes, answered) = probe (probe_ids missing listed previous.archive_watch ended) in
      let pending = add_listed moment probes answered ended listed missing in
      let (ended', newly_ended, next_pending, next_watch) =
        settle_cycle probes answered previous.refreshed_at moment pending previous.archive_watch
          ended in
      persist ended_stored snapshot_stored ended'
        (record {
          refreshed_at = some moment;
          live_baseline = map (λ x. x.slim) (keep is_live_now streams);
          pending_candidates = next_pending;
          archive_watch = next_watch;
        })
        (refreshed (length streams) (sorted_set (keys pending)) newly_ended) s

  unfoldable pub refresh_snapshot :
      (ended_stored snapshot_stored : Bool) → ℕ → Obtained → Stored → Refreshed × Stored
  unfolding is_duplicate complete_cycle
  refresh_snapshot ended_stored snapshot_stored moment streams s =
      if is_duplicate (snapshot_or_empty s.snapshot).refreshed_at moment
      then (duplicate_invocation, s)
      else elim streams [
        | obtain_failed ↦ (not_obtained, s)
        | display_cooldown ↦ (skipped_cooldown, s)
        | obtained xs ↦ complete_cycle ended_stored snapshot_stored moment xs s
      ]

-- `read_recently_ended`, before its entries are cut to the exposed fields.
unfoldable pub read_recently_ended : Option (Dict Entry) → ℕ → Option (Dict Entry)
read_recently_ended none moment = none
read_recently_ended (some ended) moment = some (
    sorted later_first
      (keep (λ e. leb moment (e.1.confirmed_ended_at + recently_ended_expose)) ended))

abbrev pub available_facts : Archive → Option Facts
available_facts (archive_available _ _ facts) = some facts
available_facts _ = none

-- `read_available_archives`: id and facts of each verified archive of a creator.
unfoldable pub read_available_archives : String → Dict Entry → Dict Facts
read_available_archives creator_id [] = []
read_available_archives creator_id ((video_id, e) ∷ ended) =
    let rest = read_available_archives creator_id ended in
    elim (available_facts e.archive) [
      | none ↦ rest
      | some facts ↦
          if is_some_text creator_id e.stream.creator_id && is_ended e.end_state
          then (e.stream.video_id, facts) ∷ rest
          else rest
    ]
