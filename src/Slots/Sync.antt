-- ===== src/Slots/Sync.antt =====
-- sync_client_slots and remove_client of src/stores/notification_slot_store.py, as the writes that
-- they make for one client. `existing` is what the index answers for the client.
use yobi_analytics.Prelude.{
  ℕ, Bool, not, ◌&&◌, ◌||◌, Option, some, List, [], ◌∷◌, ◌++◌, map, Dict, insert, has, keys, keep,
  String, str_eq, if◌then◌else◌,
}
use yobi_analytics.Prelude.Optional.{◌>>=◌}
use yobi_analytics.Prelude.TextOrder.{text_le}
use yobi_analytics.Slots.Keys.{zone_slot_key, has_bar}

-- The attributes of an item beside its keys.
pub record SlotItem : Type 0 where
  pub zone : Option String
  pub slot : Option ℕ
  pub active_since : String

-- The client's items by slot key, and the zones that are registered.
pub record Index : Type 0 where
  pub items : Dict SlotItem
  pub zones : List String

pub data SlotWrite : Type 0 where
  register_zone : (zone : String) → SlotWrite
  put_slot : (slot_key : String) (item : SlotItem) → SlotWrite
  delete_slot : (slot_key : String) → SlotWrite

abbrev pub without : String → Dict SlotItem → Dict SlotItem
without k items = keep (λ e. not (str_eq e.0 k)) items

unfoldable pub apply : SlotWrite → Index → Index
unfolding insert
apply (register_zone zone) index = record index { zones = zone ∷ index.zones }
apply (put_slot k item) index = record index { items = insert k item index.items }
apply (delete_slot k) index = record index { items = without k index.items }

unfoldable pub apply_all : List SlotWrite → Index → Index
unfolding apply
apply_all [] index = index
apply_all (w ∷ ws) index = apply_all ws (apply w index)

unfoldable pub is_legacy_key : String → Bool
unfolding has_bar
is_legacy_key k = not (has_bar k)

-- `{zone_slot_key(zone, slot): slot for slot in slots}`; `none` where a key raises.
unfoldable pub desired_slots : String → List ℕ → Dict ℕ → Option (Dict ℕ)
unfolding insert
desired_slots zone [] d = some d
desired_slots zone (slot ∷ slots) d = do
  k ← zone_slot_key zone slot
  desired_slots zone slots (insert k slot d)

abbrev min_text : String → String → String
min_text s t = if text_le s t then s else t

-- `min(xs, default=...)`
unfoldable pub earliest : String → Dict SlotItem → String
earliest default [] = default
earliest default ((k, item) ∷ []) = item.active_since
earliest default ((k, item) ∷ items) = min_text item.active_since (earliest default items)

abbrev pub missing_slots : Dict ℕ → Dict SlotItem → Dict ℕ
missing_slots desired existing = keep (λ e. not (has e.0 existing)) desired

abbrev pub is_stale : Dict ℕ → Bool → String → Bool
is_stale desired prune_legacy k = not (has k desired) && (prune_legacy || not (is_legacy_key k))

abbrev pub stale_keys : Dict ℕ → Bool → Dict SlotItem → List String
stale_keys desired prune_legacy existing = keep (is_stale desired prune_legacy) (keys existing)

abbrev pub new_item : String → String → ℕ → SlotItem
new_item zone active_since slot = record {
  zone = some zone;
  slot = some slot;
  active_since = active_since;
}

abbrev pub put_slots : String → String → Dict ℕ → List SlotWrite
put_slots zone active_since [] = []
put_slots zone active_since ((k, slot) ∷ missing) =
    put_slot k (new_item zone active_since slot) ∷ put_slots zone active_since missing

-- The zone is registered only if something is to be put.
unfoldable pub registration : String → Dict ℕ → List SlotWrite
registration zone [] = []
registration zone (e ∷ missing) = register_zone zone ∷ []

abbrev pub removals : List String → List SlotWrite
removals ks = map delete_slot ks

-- The requests of a sync, in their order: the registration, the batch of puts, the batch of deletes.
abbrev pub sync_batches : String → Dict ℕ → String → Bool → Dict SlotItem → List (List SlotWrite)
sync_batches zone desired now_iso prune_legacy existing =
    let missing = missing_slots desired existing in
    registration zone missing
    ∷ put_slots zone (earliest now_iso existing) missing
    ∷ removals (stale_keys desired prune_legacy existing)
    ∷ []

abbrev pub all_of : List (List SlotWrite) → List SlotWrite
all_of [] = []
all_of (batch ∷ batches) = batch ++ all_of batches

-- The writes of a sync that nothing interrupts.
unfoldable pub sync_writes : String → Dict ℕ → String → Bool → Dict SlotItem → List SlotWrite
unfolding registration earliest is_legacy_key
sync_writes zone desired now_iso prune_legacy existing =
    all_of (sync_batches zone desired now_iso prune_legacy existing)

-- `none` where a slot or the zone is refused, before anything is read or written.
unfoldable pub sync_client_slots :
    String → List ℕ → String → Bool → Dict SlotItem → Option (List SlotWrite)
unfolding sync_writes desired_slots
sync_client_slots zone slots now_iso prune_legacy existing = do
  desired ← desired_slots zone slots []
  some (sync_writes zone desired now_iso prune_legacy existing)

unfoldable pub remove_client : Dict SlotItem → List SlotWrite
remove_client existing = removals (keys existing)
