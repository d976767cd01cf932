-- ===== src/Slots/Settled.antt =====
-- sync_client_slots and remove_client of src/stores/notification_slot_store.py run to their end, and
-- once more.
use yobi_analytics.Prelude.{
  ℕ, ◌≡◌, refl, sym, ap, ◌∙◌, ◌⊎◌, inl, inr, Bool, true, false, not, ◌&&◌, ◌||◌, Option, none, some,
  List, [], ◌∷◌, Dict, lookup, has, keys, keep, member, lookup-insert, String, str_eq, eq_refl,
  Bool-cases, if◌then◌else◌, arith, All, All-map_pred, is_some, exists, subst,
}
use mathlib.Core.Option.{some-injective}
use yobi_analytics.Prelude.TextOrder.{text_le, text_le-total, text_le_trans}
use yobi_analytics.Slots.Sync.{
  SlotItem, Index, put_slot, apply, apply_all, is_legacy_key, earliest, missing_slots, is_stale,
  stale_keys, new_item, put_slots, registration, removals, sync_writes, remove_client,
}
use yobi_analytics.Slots.Exact.{
  additions, apply_all-append, registered_items, sync_writes-append, lookup-removals, member-keys,
  sync_leaves_desired,
}
use yobi_analytics.Slots.Interrupted.{has-keys}

keep_none : {A : Type 0} (p : A → Bool) (xs : List A) → All (λ x. p x ≡ false) xs → keep p xs ≡ []
keep_none p [] h = refl
keep_none p (x ∷ xs) h = rw (h.0) (keep_none p xs h.1)

has_entries : {V : Type 0} (d : Dict V) → All (λ e. has e.0 d ≡ true) d
unfolding lookup
has_entries [] = tt
has_entries ((k, v) ∷ d) =
    (rw (eq_refl k) refl, All-map_pred (λ e h. ground arith) d (has_entries d))

nothing_stale : (d e p l : Bool) → (d || (e && not p && l)) ≡ true → (not d && (p || not l)) ≡ false
nothing_stale d e p l h = ground arith

-- A sync of the same slots, at any later instant, that sees what the first one left writes nothing.
pub sync_again_writes_nothing :
    (zone : String) (desired : Dict ℕ) (first later : String) (prune : Bool) (index : Index)
    → let after = apply_all (sync_writes zone desired first prune index.items) index in
      sync_writes zone desired later prune after.items ≡ []
unfolding sync_writes registration
sync_again_writes_nothing zone desired first later prune index =
    let after = apply_all (sync_writes zone desired first prune index.items) index in
    let left = sync_leaves_desired zone desired first prune index in
    let none_missing : missing_slots desired after.items ≡ [] =
      keep_none (λ e. not (has e.0 after.items)) desired
        (All-map_pred (λ e d. rw (left e.0, d) refl) desired (has_entries desired)) in
    let none_stale : stale_keys desired prune after.items ≡ [] =
      keep_none (is_stale desired prune) (keys after.items) (
        All-map_pred
          (λ k h.
            nothing_stale (has k desired) (has k index.items) prune (is_legacy_key k)
              (sym (left k) ∙ h))
          (keys after.items) (has-keys after.items)) in
    rw (none_missing, none_stale) refl

since_of_put :
    (k zone since : String) (missing : Dict ℕ) (index : Index) (item : SlotItem)
    → lookup k (apply_all (put_slots zone since missing) index).items ≡ some item
    → (lookup k index.items ≡ some item) ⊎ (item.active_since ≡ since)
unfolding apply_all apply
since_of_put k zone since [] index item h = inl h
since_of_put k zone since ((j, slot) ∷ missing) index item h =
    let put = new_item zone since slot in
    elim (since_of_put k zone since missing (apply (put_slot j put) index) item h) [
      | inl e ↦ elim (Bool-cases (str_eq j k)) [
        | inl t ↦ inr (
            sym (
              ap (λ i. i.active_since)
                (some-injective put item (rw (lookup-insert j k put index.items, t) at e))))
        | inr t ↦ inl (rw (lookup-insert j k put index.items, t) at e)
      ]
      | inr e ↦ inr e
    ]

since_of_addition :
    (k zone since : String) (missing : Dict ℕ) (index : Index) (item : SlotItem)
    → lookup k (apply_all (additions zone since missing) index).items ≡ some item
    → (lookup k index.items ≡ some item) ⊎ (item.active_since ≡ since)
since_of_addition k zone since missing index item h =
    let start = apply_all (registration zone missing) index in
    elim (since_of_put k zone since missing start item (
      ap (λ i. lookup k i.items)
        (sym (apply_all-append (registration zone missing) (put_slots zone since missing) index))
      ∙ h)) [
        | inl e ↦ inl (ap (λ items. lookup k items) (sym (registered_items zone missing index)) ∙ e)
        | inr e ↦ inr e
      ]

not_removed :
    {A : Type 0} (b : Bool) (o : Option A) (item : A)
    → (if b then none else o) ≡ some item
    → o ≡ some item
not_removed true o item h = absurd cc
not_removed false o item h = h

text_le_refl : (s : String) → text_le s s ≡ true
text_le_refl s = elim (Bool-cases (text_le s s)) [ inl e ↦ e | inr e ↦ text_le-total s s e ]

-- The least activeSince of the items, and the instant of the sync where there is no item.
abbrev pub IsEarliest : String → Dict SlotItem → String → Type 0
IsEarliest now_iso [] since = since ≡ now_iso
IsEarliest now_iso (e ∷ items) since =
    All (λ i. text_le since i.1.active_since ≡ true) (e ∷ items)
    × (exists (λ i. str_eq i.1.active_since since) (e ∷ items) ≡ true)

earlier-IsEarliest :
    (now_iso : String) (e f : String × SlotItem) (items : Dict SlotItem) (m : String) (first : Bool)
    → text_le e.1.active_since m ≡ first
    → IsEarliest now_iso (f ∷ items) m
    → IsEarliest now_iso (e ∷ f ∷ items) (if first then e.1.active_since else m)
earlier-IsEarliest now_iso e f items m true before (least, there) = (
  (
    text_le_refl e.1.active_since,
    All-map_pred (λ i h. text_le_trans e.1.active_since m i.1.active_since before h) (f ∷ items)
        least,
  ),
  rw (eq_refl e.1.active_since) refl,
)
earlier-IsEarliest now_iso e f items m false after (least, there) =
    ((text_le-total e.1.active_since m after, least), either (str_eq e.1.active_since m) _ there)
  where
    either : (a b : Bool) → b ≡ true → (if a then true else b) ≡ true
    either a b h = ground arith

earliest-IsEarliest :
    (now_iso : String) (items : Dict SlotItem) → IsEarliest now_iso items (earliest now_iso items)
unfolding earliest
earliest-IsEarliest now_iso [] = refl
earliest-IsEarliest now_iso (e ∷ []) =
    ((text_le_refl e.1.active_since, tt), rw (eq_refl e.1.active_since) refl)
earliest-IsEarliest now_iso (e ∷ f ∷ items) =
    earlier-IsEarliest now_iso e f items (earliest now_iso (f ∷ items)) _ refl
      (earliest-IsEarliest now_iso (f ∷ items))

-- An item that a sync leaves is as it was, or its activeSince is that of one of the client's items
-- before and no item of before has an earlier one; where the client had no item it is the instant of
-- the sync.
pub sync_keeps_active_since :
    (zone : String) (desired : Dict ℕ) (now_iso : String) (prune : Bool) (index : Index)
    (k : String) (item : SlotItem)
    → lookup k (apply_all (sync_writes zone desired now_iso prune index.items) index).items
      ≡ some item
    → (lookup k index.items ≡ some item) ⊎ IsEarliest now_iso index.items item.active_since
sync_keeps_active_since zone desired now_iso prune index k item h =
    let since = earliest now_iso index.items in
    let missing = missing_slots desired index.items in
    let stale = stale_keys desired prune index.items in
    let full = apply_all (additions zone since missing) index in
    elim (since_of_addition k zone since missing index item (
      not_removed (member k stale) (lookup k full.items) item (
        sym (lookup-removals k stale full)
        ∙ ap (λ i. lookup k i.items)
            (sym (apply_all-append (additions zone since missing) (removals stale) index))
        ∙ ap (λ ws. lookup k (apply_all ws index).items)
            (sym (sync_writes-append zone desired now_iso prune index.items))
        ∙ h))) [
          | inl same ↦ inl same
          | inr put ↦ inr (
              subst (IsEarliest now_iso index.items) (sym put)
                (earliest-IsEarliest now_iso index.items))
        ]

-- A removed client has no item.
pub removed_client_has_none :
    (index : Index) (k : String)
    → lookup k (apply_all (remove_client index.items) index).items ≡ none
unfolding remove_client
removed_client_has_none index k =
    lookup-removals k (keys index.items) index
    ∙ rw (member-keys k index.items) (none_without (lookup k index.items))
  where
    none_without : (o : Option SlotItem) → (if is_some o then none else o) ≡ none
    none_without none = refl
    none_without (some item) = refl
