-- ===== src/Livestream/DisplayTests.antt =====
-- One refresh of the display snapshot, one that fails, and what is served after them.
use yobi_analytics.Prelude.{
  ℕ, ◌+◌, ◌*◌, ◌≡◌, refl, ◌⊎◌, String, true, false, none, some, List, [], ◌∷◌, arith,
}
use yobi_analytics.Livestream.{second}
use yobi_analytics.Livestream.Cycle.{Stream, is_live}
use yobi_analytics.Livestream.Display.{
  Display, read_display, read_serving_snapshot, is_in_cooldown, fetch_failed, listed,
  refresh_display_snapshot,
}
use yobi_analytics.Livestream.Serving.{
  IsRecent, read_serving_snapshot-IsRecent, refresh-read_serving_snapshot, refresh-is_in_cooldown,
  Shows, refresh-Shows,
}

abbrev now : ℕ
now = 1788048000 * second

abbrev streams : List Stream
streams =
    record {
      slim = record {
        video_id = "on";
        creator_id = some "creator";
        title = some "a stream";
        scheduled_start = none;
        actual_start = some now;
      };
      status = is_live;
    }
    ∷ []

abbrev dumps : List Stream → String
dumps [] = "[]"
dumps (s ∷ rest) = s.slim.video_id

abbrev empty : Display
empty = record { snapshot = none; heartbeat = none }

abbrev shown : Display
shown = (refresh_display_snapshot dumps true true now (listed streams) empty).1

refresh-Shows_example : Shows dumps (now + 1200 * second) none streams shown
unfolding refresh_display_snapshot
refresh-Shows_example =
    refresh-Shows dumps true true now (now + 1200 * second) 1 true streams none empty refl
      (omega arith)

refresh-read_serving_snapshot_example :
    read_serving_snapshot
      (now + 900 * second)
      none
      (refresh_display_snapshot dumps true true (now + 600 * second) (fetch_failed true) shown).1
    ≡ read_serving_snapshot (now + 900 * second) none shown
refresh-read_serving_snapshot_example =
    refresh-read_serving_snapshot dumps true true (now + 600 * second) (now + 900 * second) true
      none shown

refresh-is_in_cooldown_example :
    is_in_cooldown
      (now + 1195 * second)
      (refresh_display_snapshot dumps true true (now + 600 * second) (fetch_failed true) shown).1
    ≡ false
unfolding refresh_display_snapshot is_in_cooldown
refresh-is_in_cooldown_example =
    refresh-is_in_cooldown dumps true true (now + 600 * second) (now + 1195 * second) true shown
      refl (omega arith)

read_serving_snapshot-IsRecent_example :
    IsRecent (now + 1500 * second) streams (read_display shown)
    ⊎ IsRecent (now + 1500 * second) streams none
unfolding refresh_display_snapshot read_serving_snapshot
read_serving_snapshot-IsRecent_example =
    read_serving_snapshot-IsRecent (now + 1500 * second) streams none shown refl
