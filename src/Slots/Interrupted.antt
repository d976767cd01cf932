-- ===== src/Slots/Interrupted.antt =====
-- sync_client_slots of src/stores/notification_slot_store.py where a request fails: those before it
-- have been made, and of its own writes any, as DynamoDB makes the writes of a batch in no order and
-- one by one.
use yobi_analytics.Prelude.{
  ℕ, zero, suc, ◌≡◌, refl, sym, ap, ◌∙◌, ◌⊎◌, inl, inr, Bool, true, false, not, ◌&&◌, ◌||◌, List,
  [], ◌∷◌, ◌++◌, Dict, lookup, has, keys, keep, member, String, eq_refl, arith, All, All-map_pred,
  All-keep, is_some, Bool-cases,
}
use mathlib.Core.Bool.{true≢false}
use yobi_analytics.Prelude.TextSets.{member-keep}
use yobi_analytics.Slots.Sync.{
  SlotItem, Index, SlotWrite, register_zone, put_slot, delete_slot, apply, apply_all, earliest,
  missing_slots, stale_keys, new_item, put_slots, registration, removals, sync_batches,
}
use yobi_analytics.Slots.Exact.{
  append-nil, additions, apply_all-append, append_assoc, registered_items, has-put_slots,
  has-additions, lookup-removals, member-stale_keys, has-missing_slots, is_some-unless,
}

-- The writes made: all of the batches before one, and of that one those that `made` picks.
abbrev pub stopped_at : (n : ℕ) → (made : SlotWrite → Bool) → List (List SlotWrite) → List SlotWrite
stopped_at n made [] = []
stopped_at zero made (batch ∷ batches) = keep made batch
stopped_at (suc n) made (batch ∷ batches) = batch ++ stopped_at n made batches

keep_all : {A : Type 0} (xs : List A) → keep (λ _. true) xs ≡ xs
keep_all [] = refl
keep_all (x ∷ xs) = ap (λ ys. x ∷ ys) (keep_all xs)

keep-removals :
    (made : SlotWrite → Bool) (ks : List String)
    → keep made (removals ks) ≡ removals (keep (λ k. made (delete_slot k)) ks)
keep-removals made [] = refl
keep-removals made (k ∷ ks) = elim (Bool-cases (made (delete_slot k))) [
  | inl e ↦ rw e (ap (λ ws. delete_slot k ∷ ws) (keep-removals made ks))
  | inr e ↦ rw e (keep-removals made ks)
]

keep-put_slots :
    (made : SlotWrite → Bool) (zone since : String) (missing : Dict ℕ)
    → keep made (put_slots zone since missing)
      ≡ put_slots zone since (keep (λ e. made (put_slot e.0 (new_item zone since e.1))) missing)
keep-put_slots made zone since [] = refl
keep-put_slots made zone since ((k, slot) ∷ missing) =
    elim (Bool-cases (made (put_slot k (new_item zone since slot)))) [
      | inl e ↦ rw e (
          ap (λ ws. put_slot k (new_item zone since slot) ∷ ws)
            (keep-put_slots made zone since missing))
      | inr e ↦ rw e (keep-put_slots made zone since missing)
    ]

or-cases : (a b : Bool) → (a || b) ≡ true → (a ≡ true) ⊎ (b ≡ true)
or-cases true b h = inl refl
or-cases false b h = inr h

added_or_had : (g a o : Bool) → (not g && (a || o)) ≡ true → (a ≡ true) ⊎ (o ≡ true)
added_or_had true a o h = absurd (true≢false (sym h))
added_or_had false a o h = or-cases a o h

zones_are_kept :
    (z : String) (ws : List SlotWrite) (index : Index)
    → member z index.zones ≡ true
    → member z (apply_all ws index).zones ≡ true
unfolding apply_all apply member
zones_are_kept z [] index h = h
zones_are_kept z (register_zone y ∷ ws) index h =
    zones_are_kept z ws (apply (register_zone y) index) (ground arith)
zones_are_kept z (put_slot k item ∷ ws) index h =
    zones_are_kept z ws (apply (put_slot k item) index) h
zones_are_kept z (delete_slot k ∷ ws) index h = zones_are_kept z ws (apply (delete_slot k) index) h

-- What is left of the deletes is a part of them.
stopped-removals :
    (n : ℕ) (made : SlotWrite → Bool) (ks : List String)
    → (q : String → Bool) × (stopped_at n made (removals ks ∷ []) ≡ removals (keep q ks))
stopped-removals zero made ks = ((λ k. made (delete_slot k)), keep-removals made ks)
stopped-removals (suc n) made ks =
    ((λ _. true), append-nil (removals ks) ∙ ap removals (sym (keep_all ks)))

has-keep :
    (k : String) (p : String × ℕ → Bool) (d : Dict ℕ) → has k (keep p d) ≡ true → has k d ≡ true
unfolding lookup
has-keep k p [] h = h
has-keep k p ((j, v) ∷ d) h = ground (arith, has-keep k p d)

pub has-keys : {V : Type 0} (d : Dict V) → All (λ k. has k d ≡ true) (keys d)
unfolding lookup
has-keys [] = tt
has-keys ((k, v) ∷ d) =
    (rw (eq_refl k) refl, All-map_pred (λ j h. ground arith) (keys d) (has-keys d))

-- The slots that the client had and has asked for are all there; so are all that it had, or else all
-- that it has asked for; and nothing is there that it neither had nor asked for.
abbrev pub KeepsSlots : Dict ℕ → Dict SlotItem → Dict SlotItem → Type 0
KeepsSlots desired old after =
    All (λ k. has k after ≡ true) (keep (λ k. has k desired) (keys old))
    × (All (λ k. has k after ≡ true) (keys old) ⊎ All (λ k. has k after ≡ true) (keys desired))
    × All (λ k. (has k old || has k desired) ≡ true) (keys after)

module _ (desired : Dict ℕ) (old after : Dict SlotItem) where
  -- Before the deletes: some of what is missing has been added.
  adding-KeepsSlots :
      (added : String → Bool)
      → ((k : String) → has k after ≡ (added k || has k old))
      → ((k : String) → added k ≡ true → has k desired ≡ true)
      → KeepsSlots desired old after
  adding-KeepsSlots added left asked =
      let kept = λ (k : String) (h : has k old ≡ true). left k ∙ rw h (or_true (added k)) in
      (
        All-keep _ (λ k. has k desired) (keys old)
            (All-map_pred (λ k h _. kept k h) (keys old) (has-keys old)),
        inl (All-map_pred kept (keys old) (has-keys old)),
        All-map_pred
            (λ k h. from_two (added k) (has k old) (has k desired) (sym (left k) ∙ h) (asked k))
            (keys after) (has-keys after),
      )
    where
      or_true : (a : Bool) → (a || true) ≡ true
      or_true a = ground arith

      from_two : (a o d : Bool) → (a || o) ≡ true → (a ≡ true → d ≡ true) → (o || d) ≡ true
      from_two true o d h f = rw (f refl) (or_true o)
      from_two false o d h f = rw h refl

  -- During the deletes: all is added that was missing, and some of what is stale is gone.
  removing-KeepsSlots :
      (gone : String → Bool)
      → ((k : String)
          → has k after ≡ (not (gone k) && ((has k desired && not (has k old)) || has k old)))
      → ((k : String) → gone k ≡ true → has k desired ≡ false)
      → KeepsSlots desired old after
  removing-KeepsSlots gone left stale =
      let there = λ (k : String) (d : has k desired ≡ true).
        left k ∙ wanted (gone k) (has k desired) (has k old) d (stale k) in
      (
        All-keep _ (λ k. has k desired) (keys old)
            (All-map_pred (λ k _ d. there k d) (keys old) (has-keys old)),
        inr (All-map_pred there (keys desired) (has-keys desired)),
        All-map_pred (λ k h. had_or_wanted (gone k) (has k desired) (has k old) (sym (left k) ∙ h))
            (keys after) (has-keys after),
      )
    where
      wanted :
          (g d o : Bool) → d ≡ true → (g ≡ true → d ≡ false) → (not g && ((d && not o) || o)) ≡ true
      wanted true d o e f = absurd (true≢false (sym e ∙ f refl))
      wanted false d o e f = ground arith

      had_or_wanted : (g d o : Bool) → (not g && ((d && not o) || o)) ≡ true → (o || d) ≡ true
      had_or_wanted g d o h = ground arith

module _ (zone : String) (desired : Dict ℕ) (now_iso : String) (prune : Bool) (index : Index) where
  -- What the table holds where a sync stops.
  abbrev pub after_stop : ℕ → (SlotWrite → Bool) → Index
  after_stop n made =
      apply_all (stopped_at n made (sync_batches zone desired now_iso prune index.items)) index

  abbrev missing : Dict ℕ
  missing = missing_slots desired index.items

  abbrev since : String
  since = earliest now_iso index.items

  abbrev stale : List String
  stale = stale_keys desired prune index.items

  missing_is_asked : (k : String) → has k missing ≡ true → has k desired ≡ true
  missing_is_asked k h =
      and_left (has k desired) _ (sym (has-missing_slots k desired index.items) ∙ h)
    where
      and_left : (a b : Bool) → (a && b) ≡ true → a ≡ true
      and_left a b e = ground arith

  stale_is_not_asked :
      (q : String → Bool) (k : String) → member k (keep q stale) ≡ true → has k desired ≡ false
  stale_is_not_asked q k h = unasked (has k index.items) (has k desired) _ (q k) (
      sym (ap (λ b. b && q k) (member-stale_keys k desired prune index.items))
      ∙ sym (member-keep q k stale)
      ∙ h)
    where
      unasked : (e d p c : Bool) → ((e && (not d && p)) && c) ≡ true → d ≡ false
      unasked e d p c g = ground arith

  has-part_added :
      (p : String × ℕ → Bool) (k : String)
      → has k
          (apply_all
            (registration zone missing ++ put_slots zone since (keep p missing))
            index).items
        ≡ (has k (keep p missing) || has k index.items)
  has-part_added p k =
      ap (λ i. has k i.items)
        (apply_all-append (registration zone missing) (put_slots zone since (keep p missing)) index)
      ∙ has-put_slots k zone since (keep p missing) (apply_all (registration zone missing) index)
      ∙ ap (λ items. has k (keep p missing) || has k items) (registered_items zone missing index)

  has-part_removed :
      (q : String → Bool) (k : String)
      → has k
          (apply_all
            (registration zone missing ++ (put_slots zone since missing ++ removals (keep q stale)))
            index).items
        ≡ (not (member k (keep q stale))
            && ((has k desired && not (has k index.items)) || has k index.items))
  has-part_removed q k =
      let ks = keep q stale in
      let puts = put_slots zone since missing in
      let full = apply_all (additions zone since missing) index in
      ap (λ ws. has k (apply_all ws index).items)
        (append_assoc (registration zone missing) puts (removals ks))
      ∙ ap (λ i. has k i.items)
          (apply_all-append (additions zone since missing) (removals ks) index)
      ∙ ap is_some (lookup-removals k ks full)
      ∙ is_some-unless (member k ks) (lookup k full.items)
      ∙ rw (has-additions k zone since missing index, has-missing_slots k desired index.items) refl

  registering_items :
      (made : SlotWrite → Bool) (m : Dict ℕ)
      → (apply_all (keep made (registration zone m)) index).items ≡ index.items
  unfolding registration apply_all apply
  registering_items made [] = refl
  registering_items made (e ∷ m) = elim (Bool-cases (made (register_zone zone))) [
    | inl h ↦ rw h refl
    | inr h ↦ rw h refl
  ]

  -- Wherever a sync stops, whichever writes of the batch that failed were made: every slot that the
  -- client had and has asked for is there; so is every slot that it had, or else, once all the puts are
  -- made, every slot that it has asked for; and no slot is there that it neither had nor asked for.
  pub interrupted_sync-KeepsSlots :
      (n : ℕ) (made : SlotWrite → Bool) → KeepsSlots desired index.items (after_stop n made).items
  interrupted_sync-KeepsSlots zero made =
      adding-KeepsSlots desired index.items _ (λ _. false)
        (λ k. ap (λ items. has k items) (registering_items made missing)) (λ k e. cc)
  interrupted_sync-KeepsSlots (suc zero) made =
      let p = λ (e : String × ℕ). made (put_slot e.0 (new_item zone since e.1)) in
      adding-KeepsSlots desired index.items _ (λ k. has k (keep p missing))
        (λ k.
          ap (λ ws. has k (apply_all (registration zone missing ++ ws) index).items)
            (keep-put_slots made zone since missing)
          ∙ has-part_added p k)
        (λ k h. missing_is_asked k (has-keep k p missing h))
  interrupted_sync-KeepsSlots (suc (suc n)) made =
      let (q, e) = stopped-removals n made stale in
      removing-KeepsSlots desired index.items _ (λ k. member k (keep q stale))
        (λ k.
          ap
            (λ ws.
              has k
                (apply_all (registration zone missing ++ (put_slots zone since missing ++ ws))
                  index).items)
            e
          ∙ has-part_removed q k)
        (stale_is_not_asked q)

  registered_zone :
      (k : String) (m : Dict ℕ) (ws : List SlotWrite)
      → has k m ≡ true
      → member zone (apply_all (registration zone m ++ ws) index).zones ≡ true
  unfolding registration apply_all apply lookup member
  registered_zone k [] ws h = absurd (true≢false (sym h))
  registered_zone k (e ∷ m) ws h =
      zones_are_kept zone ws (apply (register_zone zone) index) (rw (eq_refl zone) refl)

  -- Wherever a sync stops, whichever writes of the batch that failed were made, a slot key at which the
  -- client is found is one that it had before, or its zone is registered, so that the dispatcher asks
  -- for it.
  pub found_client_has_zone :
      (n : ℕ) (made : SlotWrite → Bool) (k : String)
      → has k (after_stop n made).items ≡ true
      → (has k index.items ≡ true) ⊎ (member zone (after_stop n made).zones ≡ true)
  found_client_has_zone zero made k h =
      inl (sym (ap (λ items. has k items) (registering_items made missing)) ∙ h)
  found_client_has_zone (suc zero) made k h =
      let p = λ (e : String × ℕ). made (put_slot e.0 (new_item zone since e.1)) in
      elim (or-cases (has k (keep p missing)) (has k index.items) (
        sym (has-part_added p k)
        ∙ sym (
            ap (λ ws. has k (apply_all (registration zone missing ++ ws) index).items)
              (keep-put_slots made zone since missing))
        ∙ h)) [
          | inl new ↦ inr (registered_zone k missing _ (has-keep k p missing new))
          | inr old ↦ inl old
        ]
  found_client_has_zone (suc (suc n)) made k h =
      let (q, e) = stopped-removals n made stale in
      elim (added_or_had (member k (keep q stale)) _ (has k index.items) (
        sym (has-part_removed q k)
        ∙ sym (
            ap
              (λ ws.
                has k
                  (apply_all (registration zone missing ++ (put_slots zone since missing ++ ws))
                    index).items)
              e)
        ∙ h)) [
          | inl new ↦
              inr (registered_zone k missing _ (has-missing_slots k desired index.items ∙ new))
          | inr old ↦ inl old
        ]
