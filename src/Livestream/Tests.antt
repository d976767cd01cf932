-- ===== src/Livestream/Tests.antt =====
-- A stream that left the list, confirmed by YouTube, and one that YouTube does not return.
use yobi_analytics.Prelude.{
  ℕ, ◌+◌, ◌*◌, ◌≡◌, refl, ◌⊎◌, inl, inr, String, true, false, Option, none, some, List, [], ◌∷◌,
  Dict, lookup, insert, has, member, arith,
}
use yobi_analytics.Livestream.{
  second, Slim, Probe, Entry, Candidate, WatchState, archive_pending, end_state_ended, not_public,
}
use yobi_analytics.Livestream.Lookups.{run_archive_lookups}
use yobi_analytics.Livestream.Candidates.{VideoMaster, written, rejected, found, resolve_candidates}
use yobi_analytics.Livestream.Evidence.{Gained, resolve-IsEvidenced}
use yobi_analytics.Livestream.Progress.{IsOverADay, resolve-covers}
use yobi_analytics.Livestream.Misses.{Cycle}
use yobi_analytics.Livestream.Watch.{IsLookedUp, run_archive_lookups-IsLookedUp}
use yobi_analytics.Livestream.Cycle.{
  settle_cycle, Stored, Stream, is_live, obtained, refresh_snapshot,
}
use yobi_analytics.Livestream.Pursuit.{IsPursued, settle_cycle-IsPursued}

abbrev start : ℕ
start = 1788048000 * second

abbrev master : VideoMaster
master = record {
  set_video_classification = λ _. rejected;
  get_video = λ _. found (some "upload");
  set_video_live_status = λ _. written;
}

abbrev stream : String → Slim
stream id = record {
  video_id = id;
  creator_id = some "creator";
  title = some "a stream";
  scheduled_start = none;
  actual_start = some start;
}

abbrev finished_probe : Probe
finished_probe = record {
  title = some "a stream";
  channel_id = some "channel";
  published_at = some (start + 7200 * second);
  actual_start_time = some start;
  actual_end_time = some (start + 3600 * second);
  privacy_status = some "public";
  upload_status = some "processed";
  embeddable = none;
  view_count = none;
}

abbrev probes : Dict Probe
probes = ("gone", finished_probe) ∷ []

abbrev candidate : String → Candidate
candidate id = record {
  first_seen_missing_at = some (start + 3700 * second);
  attempts = 10;
  stream = some (stream id);
  listed_while_ended = false;
}

abbrev pending : Dict Candidate
pending = ("gone", candidate "gone") ∷ ("private", candidate "private") ∷ []

abbrev answered : List String
answered = "gone" ∷ "private" ∷ []

abbrev now : ℕ
now = start + 4000 * second

abbrev ended_stream : Entry
ended_stream = record {
  stream = stream "gone";
  last_seen_live_at = some start;
  confirmed_ended_at = now;
  actual_end = some (start + 3600 * second);
  end_state = end_state_ended;
  archive = archive_pending;
}

abbrev old_entry : Entry
old_entry = record ended_stream { stream = stream "old"; confirmed_ended_at = start }

abbrev ended : Dict Entry
ended = ("old", old_entry) ∷ []

abbrev watch : Dict WatchState
watch = ("old", record { attempts = 1; last_reason = some not_public; last_checked_at = none }) ∷ []

abbrev channel_of : Option String → Option String
channel_of _ = some "channel"

resolved_ids :
    (resolve_candidates master probes answered (some start) now pending ended).1 ≡ "gone" ∷ []
unfolding resolve_candidates member lookup
resolved_ids = refl

resolve-IsEvidenced_example :
    (lookup "gone" ended ≡ some ended_stream)
    ⊎ Gained master probes answered (some start) now "gone" pending ended ended_stream
unfolding lookup resolve_candidates member insert
resolve-IsEvidenced_example =
    resolve-IsEvidenced master probes answered (some start) now "gone" ended_stream pending ended
      refl

resolve-covers_example :
    let result = resolve_candidates master probes answered (some start) now pending ended in
    (has "private" result.2 ≡ true)
    ⊎ (has "private" result.0 ≡ true)
    ⊎ IsOverADay (some (start + 3700 * second)) now
resolve-covers_example =
    resolve-covers master probes answered (some start) now "private" (candidate "private") pending
      ended (inr (inl refl))

abbrev miss : ℕ → Cycle
miss n = record {
  probes = probes;
  answered = answered;
  previous_refreshed_at = some start;
  moment = now + n * second;
}

run_archive_lookups-IsLookedUp_example :
    (e : Entry) × (lookup "old"
        (run_archive_lookups channel_of probes answered now ended watch ("gone" ∷ [])).0
      ≡ some e)
    × IsLookedUp channel_of probes answered now "old" old_entry e
unfolding lookup
run_archive_lookups-IsLookedUp_example =
    run_archive_lookups-IsLookedUp channel_of probes answered now "old" old_entry watch
      ("gone" ∷ []) ended refl

abbrev no_probe : List String → Dict Probe × List String
no_probe _ = (probes, answered)

-- The streams that await an archive are all on the watch.
ended-IsPursued : IsPursued ended watch
unfolding lookup
ended-IsPursued k e h awaiting = ground arith

settle_cycle-IsPursued_example :
    let c =
      settle_cycle master channel_of no_probe probes answered
        (some start)
        now
        pending
        watch
        ended in
    IsPursued c.0 c.3
settle_cycle-IsPursued_example =
    settle_cycle-IsPursued master channel_of probes answered (some start) now no_probe pending watch
      ended ended-IsPursued

abbrev listed : Stream
listed = record { slim = stream "on"; status = is_live }

abbrev empty : Stored
empty = record { snapshot = none; ended = none }

abbrev after_first : Stored
after_first =
    (refresh_snapshot master channel_of no_probe true true now (obtained (listed ∷ [])) empty).1
