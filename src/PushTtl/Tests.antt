-- ===== src/PushTtl/Tests.antt =====
-- The lifetimes of notifications sent ten minutes before a start, and after it.
use yobi_analytics.Prelude.{◌≡◌, refl, ◌≤◌}
use yobi_analytics.PushTtl.{
  EndsAt, new_video_ttl_seconds, advance_reminder_ttl_seconds, simultaneous_notice_ttl_seconds,
  start_reminder_ttl_seconds, ttls_are_bounded,
}

late_notice : advance_reminder_ttl_seconds 1788000000000 1788000005000000 ≡ 30
unfolding advance_reminder_ttl_seconds
late_notice = refl

-- Sent a microsecond after a whole second before the start, and held until a microsecond after it.
notice_past_start : simultaneous_notice_ttl_seconds 1788000000000 1787999400000001 ≡ 600
unfolding simultaneous_notice_ttl_seconds
notice_past_start = refl

ttls_are_bounded_example :
    let advance = advance_reminder_ttl_seconds 1788000000000 1787999400000001 in
    let notice = simultaneous_notice_ttl_seconds 1788000000000 1787999400000001 in
    let start = start_reminder_ttl_seconds 1788000000000 1787999400000001 in
    let video = new_video_ttl_seconds 1787990000000000 1787999400000001 in
    ((30 ≤ advance) × (advance ≤ 86400) × EndsAt 30 1788000000000 1787999400000001 advance)
    × ((1 ≤ notice) × (notice ≤ 86400) × EndsAt 1 1788000000000 1787999400000001 notice)
    × ((30 ≤ start) × (start ≤ 600))
    × ((3600 ≤ video) × (video ≤ 86400))
ttls_are_bounded_example = ttls_are_bounded 1788000000000 1787990000000000 1787999400000001
