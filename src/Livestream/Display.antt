-- ===== src/Livestream/Display.antt =====
-- The display job and what it serves: `_read_display`, `read_serving_snapshot`,
-- `_display_cooldown_seconds`, `refresh_display_snapshot` and `_streams_for_completion` of
-- src/tracking/livestream_lifecycle.py. Failure bookkeeping kept inside a snapshot is that of
-- records from before the heartbeat.
use yobi_analytics.Prelude.{
  ℕ, ◌+◌, ◌-◌, ◌*◌, ◌^◌, min, String, Bool, true, false, not, ◌||◌, Option, none, some, List,
  length, leb, ltb, str_eq, if◌then◌else◌,
}
use yobi_analytics.Prelude.TextOrder.{text_le}
use yobi_analytics.Prelude.Sort.{sorted}
use yobi_analytics.Livestream.{second}
use yobi_analytics.Livestream.Cycle.{Stream, Obtained, obtained, display_cooldown}

abbrev pub display_refresh_interval_seconds : ℕ
display_refresh_interval_seconds = 600

abbrev pub display_fresh_seconds : ℕ
display_fresh_seconds = 2 * display_refresh_interval_seconds + 60

abbrev pub max_snapshot_age_seconds : ℕ
max_snapshot_age_seconds = 3 * display_refresh_interval_seconds

abbrev pub display_content_refresh_seconds : ℕ
display_content_refresh_seconds = 6 * 3600

abbrev pub display_rate_limit_cooldown_seconds : ℕ
display_rate_limit_cooldown_seconds = 300

abbrev pub display_cooldown_after_failures : ℕ
display_cooldown_after_failures = 3

abbrev pub display_cooldown_base_seconds : ℕ
display_cooldown_base_seconds = 120

abbrev pub display_cooldown_cap_seconds : ℕ
display_cooldown_cap_seconds = 540

-- The job's failures in a row and the end of its cooldown.
pub record Bookkeeping : Type 0 where
  pub consecutive_failures : ℕ
  pub cooldown_until : Option ℕ

-- The record `liveStreamDisplaySnapshot`.
pub record DisplaySnapshot : Type 0 where
  pub streams : Option (List Stream)
  pub refreshed_at : Option ℕ
  pub legacy : Bookkeeping

-- The record `liveStreamDisplayHeartbeat`.
pub record Heartbeat : Type 0 where
  pub refreshed_at : Option ℕ
  pub last_failure_at : Option ℕ
  pub bookkeeping : Bookkeeping

-- Both, where they were written.
pub record Display : Type 0 where
  pub snapshot : Option DisplaySnapshot
  pub heartbeat : Option Heartbeat

abbrev pub no_failures : Bookkeeping
no_failures = record { consecutive_failures = 0; cooldown_until = none }

abbrev pub refreshed_at_of : Option Heartbeat → Option ℕ
refreshed_at_of none = none
refreshed_at_of (some h) = h.refreshed_at

-- `_usable`: the streams and their instant, where a record has both.
unfoldable pub usable_of : Option (List Stream) → Option ℕ → Option (List Stream × ℕ)
usable_of (some streams) (some refreshed_at) = some (streams, refreshed_at)
usable_of _ _ = none

-- The later of the record's own instant and the heartbeat's.
unfoldable pub with_beat : Option ℕ → Option (List Stream × ℕ) → Option (List Stream × ℕ)
with_beat beat none = none
with_beat none (some usable) = some usable
with_beat (some beat) (some (streams, refreshed_at)) =
    some (streams, if ltb refreshed_at beat then beat else refreshed_at)

abbrev pub usable_snapshot : Option DisplaySnapshot → Option (List Stream × ℕ)
usable_snapshot none = none
usable_snapshot (some s) = usable_of s.streams s.refreshed_at

unfoldable pub read_display : Display → Option (List Stream × ℕ)
unfolding usable_of with_beat
read_display d = with_beat (refreshed_at_of d.heartbeat) (usable_snapshot d.snapshot)

unfoldable pub display_state : Display → Bookkeeping
display_state d = elim d.heartbeat [
  | some h ↦ h.bookkeeping
  | none ↦ elim d.snapshot [ some s ↦ s.legacy | none ↦ no_failures ]
]

-- The snapshot of this instant is at most `limit` seconds old.
abbrev pub is_within : (limit moment refreshed_at : ℕ) → Bool
is_within limit moment refreshed_at = leb moment (refreshed_at + limit * second)

pub data Served : Type 0 where
  served : List Stream → Served
  nothing_persisted stale_error : Served

-- The fresher of the two snapshots; the display's where they are of one instant.
unfoldable pub freshest : (display completion : Option (List Stream × ℕ)) → Option (List Stream × ℕ)
freshest none completion = completion
freshest (some d) none = some d
freshest (some d) (some c) = if ltb d.1 c.1 then some c else some d

unfoldable pub serve_freshest : ℕ → Option (List Stream × ℕ) → Served
serve_freshest moment none = nothing_persisted
serve_freshest moment (some (streams, refreshed_at)) =
    if is_within max_snapshot_age_seconds moment refreshed_at then served streams else stale_error

abbrev pub is_fresh : ℕ → Option (List Stream × ℕ) → Bool
is_fresh moment none = false
is_fresh moment (some d) = is_within display_fresh_seconds moment d.1

-- What is served of a display snapshot, with the completion job's backup copy.
unfoldable pub serve_display : ℕ → (display completion : Option (List Stream × ℕ)) → Served
unfolding freshest serve_freshest
serve_display moment none completion = serve_freshest moment completion
serve_display moment (some d) completion =
    if is_within display_fresh_seconds moment d.1
    then served d.0
    else serve_freshest moment (freshest (some d) completion)

unfoldable pub read_serving_snapshot :
    ℕ → (completion : Option (List Stream × ℕ)) → Display → Served
unfolding read_display serve_display
read_serving_snapshot moment completion d = serve_display moment (read_display d) completion

unfoldable pub display_cooldown_seconds : (failures : ℕ) (is_rate_limited : Bool) → ℕ
display_cooldown_seconds failures is_rate_limited =
    if is_rate_limited
    then display_rate_limit_cooldown_seconds
    else if ltb failures display_cooldown_after_failures
    then 0
    else min display_cooldown_cap_seconds
        (display_cooldown_base_seconds * 2 ^ (failures - display_cooldown_after_failures))

-- What `fetch_live_streams_from_holodex` comes to; a failure may be an HTTP 429.
pub data Holodex : Type 0 where
  listed : List Stream → Holodex
  fetch_failed : (is_rate_limited : Bool) → Holodex

pub data DisplayRefresh : Type 0 where
  skipped_in_cooldown : DisplayRefresh
  failed_refresh : (failures cooldown_seconds : ℕ) → DisplayRefresh
  display_write_failed : (stream_count : ℕ) → DisplayRefresh
  display_refreshed : (stream_count : ℕ) (snapshot_written : Bool) → DisplayRefresh

abbrev pub is_before : ℕ → Option ℕ → Bool
is_before moment none = false
is_before moment (some cooldown_until) = ltb moment cooldown_until

-- The job is in a failure cooldown.
unfoldable pub is_in_cooldown : ℕ → Display → Bool
unfolding display_state
is_in_cooldown moment d = is_before moment (display_state d).cooldown_until

-- `_streams_for_completion`; `fetch` is what its bounded fetch of Holodex would come to.
unfoldable pub completion_streams : Obtained → ℕ → Option (List Stream × ℕ) → Obtained
completion_streams fetch moment none = fetch
completion_streams fetch moment (some (streams, refreshed_at)) =
    if is_within display_fresh_seconds moment refreshed_at then obtained streams else fetch

unfoldable pub streams_for_completion : Obtained → ℕ → Display → Obtained
unfolding is_in_cooldown completion_streams read_display
streams_for_completion fetch moment d =
    if is_in_cooldown moment d
    then display_cooldown
    else completion_streams fetch moment (read_display d)

unfoldable pub failed_heartbeat : (moment failures cooldown : ℕ) → Option ℕ → Heartbeat
failed_heartbeat moment failures cooldown refreshed_at = record {
  refreshed_at = refreshed_at;
  last_failure_at = some moment;
  bookkeeping = record {
    consecutive_failures = failures;
    cooldown_until = if ltb 0 cooldown then some (moment + cooldown * second) else none;
  };
}

-- The large record is due for a write although nothing changed.
abbrev pub is_content_old : ℕ → Option ℕ → Bool
is_content_old moment none = true
is_content_old moment (some refreshed_at) =
    leb (refreshed_at + display_content_refresh_seconds * second) moment

abbrev pub video_id_le : Stream → Stream → Bool
video_id_le a b = text_le a.slim.video_id b.slim.video_id

module _ (dumps : List Stream → String) where
  -- `_stream_signature`; `dumps` is json.dumps with sorted keys.
  unfoldable pub stream_signature : List Stream → String
  unfolding sorted
  stream_signature streams = dumps (sorted video_id_le streams)

  abbrev pub is_changed : List Stream → Option (List Stream) → Bool
  is_changed streams none = true
  is_changed streams (some old) = not (str_eq (stream_signature streams) (stream_signature old))

  abbrev pub must_write : ℕ → List Stream → Option DisplaySnapshot → Bool
  must_write moment streams none = true
  must_write moment streams (some s) =
      is_changed streams s.streams || is_content_old moment s.refreshed_at

  abbrev pub snapshot_of : ℕ → List Stream → DisplaySnapshot
  snapshot_of moment streams = record {
    streams = some streams;
    refreshed_at = some moment;
    legacy = no_failures;
  }

  abbrev pub beat_of : ℕ → Heartbeat
  beat_of moment = record {
    refreshed_at = some moment;
    last_failure_at = none;
    bookkeeping = no_failures;
  }

  -- The two writes of a successful fetch; the arguments say which of them would succeed.
  unfoldable pub store_streams :
      (snapshot_stored heartbeat_stored must : Bool)
      → ℕ
      → List Stream
      → Display
      → DisplayRefresh × Display
  store_streams false heartbeat_stored true moment streams d =
      (display_write_failed (length streams), d)
  store_streams true false true moment streams d = (
    display_write_failed (length streams),
    record d { snapshot = some (snapshot_of moment streams) },
  )
  store_streams true true true moment streams d = (
    display_refreshed (length streams) true,
    record { snapshot = some (snapshot_of moment streams); heartbeat = some (beat_of moment) },
  )
  store_streams snapshot_stored false false moment streams d =
      (display_write_failed (length streams), d)
  store_streams snapshot_stored true false moment streams d =
      (display_refreshed (length streams) false, record d { heartbeat = some (beat_of moment) })

  unfoldable pub run_display :
      (snapshot_stored heartbeat_stored : Bool) → ℕ → Holodex → Display → DisplayRefresh × Display
  unfolding display_cooldown_seconds failed_heartbeat store_streams display_state
  run_display snapshot_stored heartbeat_stored moment (fetch_failed is_rate_limited) d =
      let failures = (display_state d).consecutive_failures + 1 in
      let cooldown = display_cooldown_seconds failures is_rate_limited in
      (
        failed_refresh failures cooldown,
        if heartbeat_stored
            then record d {
              heartbeat =
                  some (failed_heartbeat moment failures cooldown (refreshed_at_of d.heartbeat));
            }
            else d,
      )
  run_display snapshot_stored heartbeat_stored moment (listed streams) d =
      store_streams snapshot_stored heartbeat_stored (must_write moment streams d.snapshot) moment
        streams d

  unfoldable pub refresh_display_snapshot :
      (snapshot_stored heartbeat_stored : Bool) → ℕ → Holodex → Display → DisplayRefresh × Display
  unfolding run_display is_in_cooldown
  refresh_display_snapshot snapshot_stored heartbeat_stored moment fetched d =
      if is_in_cooldown moment d
      then (skipped_in_cooldown, d)
      else run_display snapshot_stored heartbeat_stored moment fetched d
