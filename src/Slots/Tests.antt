-- ===== src/Slots/Tests.antt =====
-- A client that moves from one zone to another.
use yobi_analytics.Prelude.{
  ◌≡◌, refl, ◌⊎◌, true, false, not, ◌&&◌, ◌||◌, some, none, [], ◌∷◌, ℕ, Dict, String, has, keys,
  member, lookup, Bool, str_eq, inl, inr, ◌+◌, ◌-◌, ◌*◌, ◌/◌, ◌≤◌, ◌<◌, ◌==◌,
}
use yobi_analytics.Prelude.TextOrder.{text_le}
use yobi_analytics.Slots.Keys.{zone_slot_key}
use yobi_analytics.Slots.Sync.{
  SlotItem, Index, SlotWrite, put_slot, delete_slot, registration, apply_all, earliest,
  is_legacy_key, desired_slots, sync_writes,
}
use yobi_analytics.Slots.Due.{Time, tick_minutes, in_tick, slot_start_time, due_local_slots}
use yobi_analytics.Slots.Served.{lists, tick_after, slot_is_served}
use yobi_analytics.Slots.Exact.{sync_leaves_desired}
use yobi_analytics.Slots.Interrupted.{
  KeepsSlots, after_stop, interrupted_sync-KeepsSlots, found_client_has_zone,
}
use yobi_analytics.Slots.Settled.{IsEarliest, sync_keeps_active_since}

key_of_slot : zone_slot_key "Asia/Tokyo" 7 ≡ some "Asia/Tokyo|07"
unfolding zone_slot_key
key_of_slot = refl

refused_slot : zone_slot_key "Asia/Tokyo" 48 ≡ none
unfolding zone_slot_key
refused_slot = refl

abbrev since_september : SlotItem
since_september = record {
  zone = some "Asia/Tokyo";
  slot = some 16;
  active_since = "2026-09-02T00:00:00+00:00";
}

-- Indexed for 08:00 in Tokyo, with an item of the first release.
abbrev before : Index
before = record {
  items =
      ("Asia/Tokyo|16", since_september)
      ∷ ("16", record { zone = none; slot = none; active_since = "2026-09-01T00:00:00+00:00" })
      ∷ [];
  zones = "Asia/Tokyo" ∷ [];
}

abbrev wanted : Dict ℕ
wanted = ("Europe/Paris|16", 16) ∷ ("Europe/Paris|40", 40) ∷ []

wanted_slots : desired_slots "Europe/Paris" (16 ∷ 40 ∷ []) [] ≡ some wanted
unfolding desired_slots zone_slot_key
wanted_slots = refl

abbrev now_iso : String
now_iso = "2026-10-01T00:00:00+00:00"

keys_after_move :
    keys (apply_all (sync_writes "Europe/Paris" wanted now_iso true before.items) before).items
    ≡ ("Europe/Paris|16" ∷ "Europe/Paris|40" ∷ [])
unfolding sync_writes apply_all lookup
keys_after_move = refl

sync_leaves_desired_example :
    has "Europe/Paris|40"
      (apply_all (sync_writes "Europe/Paris" wanted now_iso false before.items) before).items
    ≡ (has "Europe/Paris|40" wanted
        || (has "Europe/Paris|40" before.items && not false && is_legacy_key "Europe/Paris|40"))
sync_leaves_desired_example =
    sync_leaves_desired "Europe/Paris" wanted now_iso false before "Europe/Paris|40"

-- Of the batch of puts only the one for 08:00 has been made.
abbrev morning_only : SlotWrite → Bool
morning_only (put_slot k item) = str_eq k "Europe/Paris|16"
morning_only _ = false

interrupted_sync-KeepsSlots_example :
    KeepsSlots wanted before.items
      (after_stop "Europe/Paris" wanted now_iso true before 1 morning_only).items
interrupted_sync-KeepsSlots_example =
    interrupted_sync-KeepsSlots "Europe/Paris" wanted now_iso true before 1 morning_only

found_client_has_zone_example :
    (has "Europe/Paris|16" before.items ≡ true)
    ⊎ (member "Europe/Paris"
          (after_stop "Europe/Paris" wanted now_iso true before 1 morning_only).zones
        ≡ true)
unfolding apply_all registration lookup
found_client_has_zone_example =
    found_client_has_zone "Europe/Paris" wanted now_iso true before 1 morning_only "Europe/Paris|16"
      refl

abbrev three_items : Index
three_items = record {
  items =
      ("Asia/Tokyo|16", since_september)
      ∷ ("Asia/Tokyo|17", since_september)
      ∷ ("Asia/Tokyo|18", since_september)
      ∷ [];
  zones = "Asia/Tokyo" ∷ [];
}

abbrev first_delete : SlotWrite → Bool
first_delete (delete_slot k) = str_eq k "Asia/Tokyo|17"
first_delete _ = false

-- From three slots to one, stopped after one delete: two slots are left of three.
fewer_slots_test :
    keys
      (after_stop "Asia/Tokyo"
        (("Asia/Tokyo|16", 16) ∷ [])
        now_iso
        true
        three_items
        2
        first_delete).items
    ≡ ("Asia/Tokyo|16" ∷ "Asia/Tokyo|18" ∷ [])
unfolding apply_all registration lookup earliest is_legacy_key
fewer_slots_test = refl

abbrev moved : SlotItem
moved = record {
  zone = some "Europe/Paris";
  slot = some 16;
  active_since = "2026-09-01T00:00:00+00:00";
}

sync_keeps_active_since_example :
    (lookup "Europe/Paris|16" before.items ≡ some moved)
    ⊎ IsEarliest now_iso before.items moved.active_since
unfolding sync_writes apply_all lookup text_le
sync_keeps_active_since_example =
    sync_keeps_active_since "Europe/Paris" wanted now_iso true before "Europe/Paris|16" moved refl

-- Asia/Tokyo, nine hours before UTC: dates by ordinal, instants in minutes.
abbrev tokyo_instant : ℕ → Time → ℕ
tokyo_instant date (hour, minute) = date * 1440 + hour * 60 + minute - 540

abbrev tokyo_date : ℕ → ℕ
tokyo_date instant = (instant + 540) / 1440

slot_is_served_example :
    let instant = tokyo_instant 739200 (8, 30) in
    (lists 17 (due_local_slots tokyo_instant tokyo_date (tick_after instant)) ≡ true)
    × (instant ≤ tick_after instant)
    × (tick_after instant < instant + tick_minutes)
    × ((m : ℕ) → in_tick (tick_minutes * m) instant ≡ (m == (instant + 14) / tick_minutes))
unfolding slot_start_time
slot_is_served_example =
    slot_is_served tokyo_instant tokyo_date 17 739200 (8, 30) refl (inr (inl refl))
