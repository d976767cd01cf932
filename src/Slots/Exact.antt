-- ===== src/Slots/Exact.antt =====
-- sync_client_slots of src/stores/notification_slot_store.py: the items that its writes leave.
use yobi_analytics.Prelude.{
  ℕ, ◌≡◌, refl, ap, ◌∙◌, Bool, true, false, not, ◌&&◌, ◌||◌, Option, none, List, [], ◌∷◌, ◌++◌,
  Dict, lookup, has, keys, member, lookup-insert, String, str_eq, eq_iff, is_some, if◌then◌else◌,
  arith,
}
use yobi_analytics.Prelude.TextSets.{member-keep}
use yobi_analytics.Slots.Sync.{
  SlotItem, Index, SlotWrite, put_slot, delete_slot, without, apply, apply_all, is_legacy_key,
  earliest, missing_slots, is_stale, stale_keys, new_item, put_slots, registration, removals,
  sync_writes,
}

lookup-without :
    (k j : String) (items : Dict SlotItem)
    → lookup k (without j items) ≡ (if str_eq j k then none else lookup k items)
unfolding lookup
lookup-without k j [] = ground arith
lookup-without k j ((i, v) ∷ items) =
    ground (arith, eq_iff i j, eq_iff j k, eq_iff i k, lookup-without k j items)

pub apply_all-append :
    (ws vs : List SlotWrite) (index : Index)
    → apply_all (ws ++ vs) index ≡ apply_all vs (apply_all ws index)
unfolding apply_all
apply_all-append [] vs index = refl
apply_all-append (w ∷ ws) vs index = apply_all-append ws vs (apply w index)

pub has-put_slots :
    (k zone since : String) (missing : Dict ℕ) (index : Index)
    → has k (apply_all (put_slots zone since missing) index).items
      ≡ (has k missing || has k index.items)
unfolding apply_all apply lookup
has-put_slots k zone since [] index = refl
has-put_slots k zone since ((j, slot) ∷ missing) index =
    has-put_slots k zone since missing (apply (put_slot j (new_item zone since slot)) index)
    ∙ ground (arith, lookup-insert j k (new_item zone since slot) index.items)

pub append-nil : (ws : List SlotWrite) → ws ++ [] ≡ ws
append-nil [] = refl
append-nil (w ∷ ws) = ap (λ vs. w ∷ vs) (append-nil ws)

pub registered_items :
    (zone : String) (missing : Dict ℕ) (index : Index)
    → (apply_all (registration zone missing) index).items ≡ index.items
unfolding registration apply_all apply
registered_items zone [] index = refl
registered_items zone (e ∷ missing) index = refl

-- The registration and the puts.
abbrev pub additions : String → String → Dict ℕ → List SlotWrite
additions zone since missing = registration zone missing ++ put_slots zone since missing

pub has-additions :
    (k zone since : String) (missing : Dict ℕ) (index : Index)
    → has k (apply_all (additions zone since missing) index).items
      ≡ (has k missing || has k index.items)
has-additions k zone since missing index =
    ap (λ i. has k i.items)
      (apply_all-append (registration zone missing) (put_slots zone since missing) index)
    ∙ has-put_slots k zone since missing (apply_all (registration zone missing) index)
    ∙ ap (λ items. has k missing || has k items) (registered_items zone missing index)

pub append_assoc : (us vs ws : List SlotWrite) → us ++ (vs ++ ws) ≡ (us ++ vs) ++ ws
append_assoc [] vs ws = refl
append_assoc (u ∷ us) vs ws = ap (λ xs. u ∷ xs) (append_assoc us vs ws)

-- A sync adds, and then removes.
pub sync_writes-append :
    (zone : String) (desired : Dict ℕ) (now_iso : String) (prune : Bool) (existing : Dict SlotItem)
    → sync_writes zone desired now_iso prune existing
      ≡ additions zone (earliest now_iso existing) (missing_slots desired existing)
        ++ removals (stale_keys desired prune existing)
unfolding sync_writes
sync_writes-append zone desired now_iso prune existing =
    let missing = missing_slots desired existing in
    let puts = put_slots zone (earliest now_iso existing) missing in
    let deletes = removals (stale_keys desired prune existing) in
    ap (λ ws. registration zone missing ++ (puts ++ ws)) (append-nil deletes)
    ∙ append_assoc (registration zone missing) puts deletes

pub lookup-removals :
    (k : String) (ks : List String) (index : Index)
    → lookup k (apply_all (removals ks) index).items
      ≡ (if member k ks then none else lookup k index.items)
unfolding apply_all apply member
lookup-removals k [] index = refl
lookup-removals k (j ∷ ks) index =
    lookup-removals k ks (apply (delete_slot j) index)
    ∙ ground (arith, lookup-without k j index.items)

pub has-missing_slots :
    (k : String) (desired : Dict ℕ) (existing : Dict SlotItem)
    → has k (missing_slots desired existing) ≡ (has k desired && not (has k existing))
unfolding lookup
has-missing_slots k [] existing = ground arith
has-missing_slots k ((j, slot) ∷ desired) existing =
    ground (arith, has-missing_slots k desired existing, eq_iff j k)

pub member-keys : {V : Type 0} (k : String) (d : Dict V) → member k (keys d) ≡ has k d
unfolding member lookup
member-keys k [] = refl
member-keys k ((j, v) ∷ d) = ground (arith, member-keys k d)

pub member-stale_keys :
    (k : String) (desired : Dict ℕ) (prune : Bool) (existing : Dict SlotItem)
    → member k (stale_keys desired prune existing) ≡ (has k existing && is_stale desired prune k)
member-stale_keys k desired prune existing =
    member-keep (is_stale desired prune) k (keys existing) ∙ rw (member-keys k existing) refl

pub is_some-unless :
    {A : Type 0} (b : Bool) (o : Option A) → is_some (if b then none else o) ≡ (not b && is_some o)
is_some-unless true o = refl
is_some-unless false o = refl

left_of :
    (d e p l : Bool)
    → (not (e && (not d && (p || not l))) && ((d && not e) || e)) ≡ (d || (e && not p && l))
left_of d e p l = ground arith

-- The keys that a sync leaves are the desired ones and, where legacy items are not pruned, the
-- legacy ones that were there; a client whose items are those that the index answered.
pub sync_leaves_desired :
    (zone : String) (desired : Dict ℕ) (now_iso : String) (prune : Bool) (index : Index)
    (k : String)
    → has k (apply_all (sync_writes zone desired now_iso prune index.items) index).items
      ≡ (has k desired || (has k index.items && not prune && is_legacy_key k))
sync_leaves_desired zone desired now_iso prune index k =
    let missing = missing_slots desired index.items in
    let since = earliest now_iso index.items in
    let stale = stale_keys desired prune index.items in
    let added = apply_all (additions zone since missing) index in
    ap (λ ws. has k (apply_all ws index).items)
      (sync_writes-append zone desired now_iso prune index.items)
    ∙ ap (λ i. has k i.items)
        (apply_all-append (additions zone since missing) (removals stale) index)
    ∙ ap is_some (lookup-removals k stale added)
    ∙ is_some-unless (member k stale) (lookup k added.items)
    ∙ rw
        (
          member-stale_keys k desired prune index.items,
          has-additions k zone since missing index,
          has-missing_slots k desired index.items,
        )
        (left_of (has k desired) (has k index.items) prune (is_legacy_key k))
