-- ===== src/Reminders/Derive.antt =====
-- src/notifications/live_reminder.py: `derive_first_seen`, which stamps the streams of a freshly
-- derived schedule. Instants are microseconds.
use yobi_analytics.Prelude.{
  ℕ, ◌+◌, ◌*◌, ◌/◌, ◌==◌, suc, String, Bool, true, false, not, ◌&&◌, Option, none, some, List, [],
  ◌∷◌, ◌++◌, leb, ltb, length, map, keep, Dict, lookup, has, is_some, if◌then◌else◌,
}
use yobi_analytics.Reminders.{
  FirstSeen, StreamScheduleEntry, minute_ms, epoch_ms, max_prior_start_minutes,
  first_seen_retention_after_start_ms,
}

pub record StreamScheduleSnapshot : Type 0 where
  pub entries : Dict StreamScheduleEntry
  pub refreshed_at : ℕ
  pub source_refreshed_at : Option ℕ
  pub first_seen : Option (Dict FirstSeen)

-- `previous.first_seen if previous is not None else None`
abbrev pub previous_stamps : Option StreamScheduleSnapshot → Option (Dict FirstSeen)
previous_stamps none = none
previous_stamps (some previous) = previous.first_seen

abbrev pub or_empty {ℓ} : {A : Type ℓ} → Option (List A) → List A
or_empty none = []
or_empty (some xs) = xs

abbrev pub source_of : Option StreamScheduleSnapshot → Option ℕ
source_of none = none
source_of (some previous) = previous.source_refreshed_at

-- `timedelta(0) <= observed_at - source <= max_source_gap`, where both are known.
abbrev pub is_within : (observed_at source : Option ℕ) (max_source_gap : ℕ) → Bool
is_within none source max_source_gap = false
is_within (some at) none max_source_gap = false
is_within (some at) (some source) max_source_gap = leb source at && leb at (source + max_source_gap)

unfoldable pub is_trusted :
    (previous : Option StreamScheduleSnapshot) (observed_at : Option ℕ) (max_source_gap : ℕ) → Bool
is_trusted previous observed_at max_source_gap =
    is_some (previous_stamps previous) && is_within observed_at (source_of previous) max_source_gap

-- `observed_at if trusted else None`
abbrev pub trusted_instant : Bool → Option ℕ → Option ℕ
trusted_instant true observed_at = observed_at
trusted_instant false observed_at = none

-- `minutes[-n:]`
unfoldable pub take_last : ℕ → List ℕ → List ℕ
take_last n [] = []
take_last n (x ∷ xs) = let rest = take_last n xs in if leb (suc (length xs)) n then x ∷ xs else rest

abbrev pub known_entry : Option StreamScheduleSnapshot → String → Option StreamScheduleEntry
known_entry none video_id = none
known_entry (some previous) video_id = lookup video_id previous.entries

unfoldable pub old_minute : Option FirstSeen → Option StreamScheduleEntry → Option ℕ
old_minute none none = none
old_minute none (some entry) = some (entry.scheduled_start_ms / minute_ms)
old_minute (some stamp) entry = some stamp.start_minute

abbrev pub base_prior : Option FirstSeen → List ℕ
base_prior none = []
base_prior (some stamp) = stamp.prior_start_minutes

-- `stamp if stamp is not None else FirstSeen(minute, None, ())`
abbrev pub unchanged_stamp : Option FirstSeen → ℕ → FirstSeen
unchanged_stamp none minute = record {
  start_minute = minute;
  first_seen_at = none;
  prior_start_minutes = [];
}
unchanged_stamp (some stamp) minute = stamp

-- The branches: never seen before, unchanged, rescheduled.
unfoldable pub stamp_after :
    (instant : Option ℕ) (stamp : Option FirstSeen) (old : Option ℕ) (minute : ℕ) → FirstSeen
unfolding take_last
stamp_after instant stamp none minute = record {
  start_minute = minute;
  first_seen_at = instant;
  prior_start_minutes = [];
}
stamp_after instant stamp (some old) minute =
    if old == minute then unchanged_stamp stamp minute else record {
      start_minute = minute;
      first_seen_at = instant;
      prior_start_minutes = take_last max_prior_start_minutes (base_prior stamp ++ (old ∷ []));
    }

-- One pass of the loop over the entries.
unfoldable pub next_stamp :
    (instant : Option ℕ) → Option FirstSeen → Option StreamScheduleEntry → (minute : ℕ) → FirstSeen
unfolding stamp_after old_minute
next_stamp instant stamp entry minute = stamp_after instant stamp (old_minute stamp entry) minute

-- The loop over the entries, a dict of start times: its keys are distinct.
unfoldable pub stamp_entries :
    (previous : Option StreamScheduleSnapshot) (instant : Option ℕ) → Dict ℕ → Dict FirstSeen
unfolding next_stamp
stamp_entries previous instant entries =
    map
      (λ e. (
        e.0,
        next_stamp instant (lookup e.0 (or_empty (previous_stamps previous)))
            (known_entry previous e.0) (e.1 / minute_ms),
      ))
      entries

-- `stamp.start_minute * 60_000 > _epoch_ms(now) - FIRST_SEEN_RETENTION_AFTER_START_MS`
abbrev pub is_retained : (now : ℕ) → FirstSeen → Bool
is_retained now stamp =
    ltb (epoch_ms now) (stamp.start_minute * minute_ms + first_seen_retention_after_start_ms)

unfoldable pub derive_first_seen :
    (previous : Option StreamScheduleSnapshot)
    → (entries : Dict ℕ) → (observed_at : Option ℕ) (now max_source_gap : ℕ) → Dict FirstSeen
unfolding stamp_entries is_trusted
derive_first_seen previous entries observed_at now max_source_gap =
    let stamped =
      stamp_entries previous
        (trusted_instant (is_trusted previous observed_at max_source_gap) observed_at) entries in
    stamped
    ++ keep (λ e. not (has e.0 stamped) && is_retained now e.1)
        (or_empty (previous_stamps previous))
