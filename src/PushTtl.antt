-- ===== src/PushTtl.antt =====
-- src/notifications/push_ttl.py: how long a push service may hold a notification. `now` and the
-- discovery are in microseconds, a scheduled start in milliseconds as in the source.
use yobi_analytics.Prelude.{
  ℕ, zero, suc, ◌+◌, ◌-◌, ◌*◌, ◌/◌, ◌≤◌, ◌<◌, ◌≡◌, ◌⊎◌, inl, inr, refl, Bool, true, false, min, max,
  leb, if◌then◌else◌, Bool-cases, leb→le, leb-false→lt, arith,
}
use yobi_analytics.Prelude.Integers.{ℤ, pos, negsuc, neg, ◌+ℤ◌}
mod Tests

abbrev pub min_time_sensitive_ttl_seconds : ℕ
min_time_sensitive_ttl_seconds = 30

abbrev pub max_ttl_seconds : ℕ
max_ttl_seconds = 24 * 3600

abbrev pub new_video_ttl_seconds_limit : ℕ
new_video_ttl_seconds_limit = max_ttl_seconds

abbrev pub min_new_video_ttl_seconds : ℕ
min_new_video_ttl_seconds = 3600

abbrev pub start_reminder_grace_seconds : ℕ
start_reminder_grace_seconds = 600

abbrev pub million : ℕ
million = 1000000

-- `math.ceil` of the seconds from `now` to a moment, negative or zero once it has passed.
unfoldable pub seconds_until : ℕ → ℕ → ℤ
unfolding neg
seconds_until moment_ms now =
    if leb now (moment_ms * 1000)
    then pos ((moment_ms * 1000 - now + 999999) / million)
    else neg (pos ((now - moment_ms * 1000) / million))

-- `max(low, min(high, value))` for natural bounds.
unfoldable pub clamp : ℤ → ℕ → ℕ → ℕ
clamp (pos n) low high = max low (min high n)
clamp (negsuc n) low high = low

-- `int((now - discovered_at).total_seconds())`, cut towards zero.
unfoldable pub whole_seconds : ℕ → ℕ → ℤ
unfolding neg
whole_seconds discovered_at now =
    if leb discovered_at now
    then pos ((now - discovered_at) / million)
    else neg (pos ((discovered_at - now) / million))

unfoldable pub new_video_ttl_seconds : ℕ → ℕ → ℕ
unfolding clamp whole_seconds ◌+ℤ◌ neg
new_video_ttl_seconds discovered_at now =
    clamp (pos new_video_ttl_seconds_limit +ℤ neg (whole_seconds discovered_at now))
      min_new_video_ttl_seconds new_video_ttl_seconds_limit

unfoldable pub advance_reminder_ttl_seconds : ℕ → ℕ → ℕ
unfolding clamp seconds_until
advance_reminder_ttl_seconds scheduled_start_ms now =
    clamp (seconds_until scheduled_start_ms now) min_time_sensitive_ttl_seconds max_ttl_seconds

-- `max(1, min(until, MAX_TTL_SECONDS))`
unfoldable pub simultaneous_notice_ttl_seconds : ℕ → ℕ → ℕ
unfolding clamp seconds_until
simultaneous_notice_ttl_seconds scheduled_start_ms now =
    clamp (seconds_until scheduled_start_ms now) 1 max_ttl_seconds

unfoldable pub start_reminder_ttl_seconds : ℕ → ℕ → ℕ
unfolding clamp seconds_until ◌+ℤ◌
start_reminder_ttl_seconds scheduled_start_ms now =
    clamp (seconds_until scheduled_start_ms now +ℤ pos start_reminder_grace_seconds)
      min_time_sensitive_ttl_seconds start_reminder_grace_seconds

clamp-low : (x : ℤ) (low high : ℕ) → low ≤ clamp x low high
unfolding clamp
clamp-low (pos n) low high = omega arith
clamp-low (negsuc n) low high = omega arith

clamp-high : (x : ℤ) (low high : ℕ) → low ≤ high → clamp x low high ≤ high
unfolding clamp
clamp-high (pos n) low high h = omega arith
clamp-high (negsuc n) low high h = h

-- A notice that lives until the scheduled start, and no less than `low` seconds: past the start by
-- less than a second, or `low` seconds and sent less than that before the start.
abbrev pub EndsAt : ℕ → ℕ → ℕ → ℕ → Type 0
EndsAt low moment_ms now ttl =
    (now + ttl * million < moment_ms * 1000 + million)
    ⊎ ((ttl ≡ low) × (moment_ms * 1000 ≤ now + low * million))

clamp-neg : (k low high : ℕ) → clamp (neg (pos k)) low high ≡ low
unfolding clamp neg
clamp-neg zero low high = omega arith
clamp-neg (suc k) low high = refl

clamp_pos-EndsAt :
    (low high moment_ms now : ℕ)
    → low ≤ high
    → now ≤ moment_ms * 1000
    → EndsAt low moment_ms now (max low (min high ((moment_ms * 1000 - now + 999999) / million)))
clamp_pos-EndsAt low high moment_ms now h early =
    let left = (moment_ms * 1000 - now + 999999) / million in
    elim (Bool-cases (leb left low)) [
      | inl e ↦ let few = leb→le left low e in inr (omega arith, omega arith)
      | inr e ↦ let more = leb-false→lt left low e in inl (omega arith)
    ]

clamp-EndsAt :
    (low high moment_ms now : ℕ)
    → low ≤ high
    → EndsAt low moment_ms now (clamp (seconds_until moment_ms now) low high)
unfolding clamp seconds_until
clamp-EndsAt low high moment_ms now h = elim (Bool-cases (leb now (moment_ms * 1000))) [
  | inl e ↦ rw e (clamp_pos-EndsAt low high moment_ms now h (leb→le now (moment_ms * 1000) e))
  | inr e ↦
      let late = leb-false→lt now (moment_ms * 1000) e in
      rw (e, clamp-neg ((now - moment_ms * 1000) / million) low high) (inr (refl, omega arith))
]

-- An advance reminder is held for 30 seconds to a day and a notice of simultaneous streams for one
-- second to a day, and neither outlives the start by a second or more unless it is sent less than
-- 30 seconds, or one second, before it and held just that long; a start reminder is held for 30
-- seconds to ten minutes and a new video for an hour to a day.
pub ttls_are_bounded :
    (start_ms discovered_at now : ℕ)
    → let advance = advance_reminder_ttl_seconds start_ms now in
      let notice = simultaneous_notice_ttl_seconds start_ms now in
      let start = start_reminder_ttl_seconds start_ms now in
      let video = new_video_ttl_seconds discovered_at now in
      ((30 ≤ advance) × (advance ≤ 86400) × EndsAt 30 start_ms now advance)
      × ((1 ≤ notice) × (notice ≤ 86400) × EndsAt 1 start_ms now notice)
      × ((30 ≤ start) × (start ≤ 600))
      × ((3600 ≤ video) × (video ≤ 86400))
unfolding advance_reminder_ttl_seconds simultaneous_notice_ttl_seconds start_reminder_ttl_seconds
    new_video_ttl_seconds
ttls_are_bounded start_ms discovered_at now =
    let left = seconds_until start_ms now in
    let grace = left +ℤ pos start_reminder_grace_seconds in
    let day = pos new_video_ttl_seconds_limit +ℤ neg (whole_seconds discovered_at now) in
    (
      (
        clamp-low left 30 86400,
        clamp-high left 30 86400 (omega arith),
        clamp-EndsAt 30 86400 start_ms now (omega arith),
      ),
      (
        clamp-low left 1 86400,
        clamp-high left 1 86400 (omega arith),
        clamp-EndsAt 1 86400 start_ms now (omega arith),
      ),
      (clamp-low grace 30 600, clamp-high grace 30 600 (omega arith)),
      (clamp-low day 3600 86400, clamp-high day 3600 86400 (omega arith)),
    )
