-- ===== src/Slots/Due.antt =====
-- src/notifications/delivery_slots.py: the slots of stored and of new preferences, and the slots
-- that a tick of the dispatcher serves. An instant is its number of minutes, as a tick and a slot's
-- start are whole minutes; `instant_of` gives the UTC instant of a wall-clock time of a date in a
-- zone, and `local_date` the zone's date at an instant (zoneinfo).
use yobi_analytics.Prelude.{
  ℕ, zero, suc, ◌+◌, ◌-◌, ◌*◌, ◌/◌, ◌%◌, Bool, false, ◌&&◌, Option, none, some, List, [], ◌∷◌, ◌++◌,
  map, take, keep, exists, ltb, leb, ◌==◌, if◌then◌else◌,
}
use yobi_analytics.Prelude.Sort.{sorted}
use yobi_analytics.Slots.Keys.{slot_minutes, slots_per_day, max_slots_per_client}

abbrev pub tick_minutes : ℕ
tick_minutes = 15

-- A wall-clock time: the hour and the minute.
abbrev pub Time : Type 0
Time = ℕ × ℕ

unfoldable pub slot_of_time : Time → ℕ
slot_of_time (hour, minute) = hour * 60 / slot_minutes + minute / slot_minutes

-- `none` where a ValueError is raised.
unfoldable pub slot_start_time : ℕ → Option Time
slot_start_time slot =
    if ltb slot slots_per_day then some (slot / 2, slot_minutes * (slot % 2)) else none

-- The end of parse_slot_label, on the time that strptime reads; `none` where it raises.
unfoldable pub slot_on_boundary : Option Time → Option ℕ
unfolding slot_of_time
slot_on_boundary none = none
slot_on_boundary (some (hour, minute)) =
    if minute % slot_minutes == 0 then some (slot_of_time (hour, minute)) else none

-- The set of the numbers, each once.
unfoldable pub distinct_slots : List ℕ → List ℕ
distinct_slots [] = []
distinct_slots (x ∷ xs) =
    let rest = distinct_slots xs in if exists (λ y. y == x) rest then rest else x ∷ rest

-- `sorted(set(xs))`
unfoldable pub ascending : List ℕ → List ℕ
unfolding distinct_slots sorted
ascending xs = sorted leb (distinct_slots xs)

unfoldable pub normalize_stored_slots : List Time → List ℕ
unfolding ascending slot_of_time
normalize_stored_slots windows = take max_slots_per_client (ascending (map slot_of_time windows))

-- The slots from one on, as many as are given.
unfoldable pub slots_from : ℕ → ℕ → List ℕ
slots_from slot zero = []
slots_from slot (suc n) = slot ∷ slots_from (suc slot) n

-- `earliest < instant <= utc_tick`, with the tick's length added on the left.
abbrev pub in_tick : ℕ → ℕ → Bool
in_tick tick instant = ltb tick (instant + tick_minutes) && leb instant tick

abbrev pub starts_in : (ℕ → Time → ℕ) → ℕ → ℕ → Option Time → Bool
starts_in instant_of tick date none = false
starts_in instant_of tick date (some t) = in_tick tick (instant_of date t)

-- The slots of a date that start in the tick.
unfoldable pub due_on_date : (ℕ → Time → ℕ) → ℕ → ℕ → List ℕ
unfolding slots_from slot_start_time
due_on_date instant_of tick date =
    keep (λ slot. starts_in instant_of tick date (slot_start_time slot))
      (slots_from 0 slots_per_day)

unfoldable pub due_local_slots : (ℕ → Time → ℕ) → (ℕ → ℕ) → ℕ → List ℕ
unfolding due_on_date ascending
due_local_slots instant_of local_date tick =
    let today = local_date tick in
    ascending (
      due_on_date instant_of tick (today - 1)
      ++ (due_on_date instant_of tick today ++ due_on_date instant_of tick (suc today)))
