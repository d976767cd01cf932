-- ===== src/DeliveryLog/Cached.antt =====
-- The ids that the bulk reads of src/stores/notification_delivery_log_store.py report as handled.
use yobi_analytics.Prelude.{
  ℕ, ◌≡◌, refl, sym, ap, ◌∙◌, subst, String, Bool, true, false, not, ◌&&◌, ◌||◌, Option, none, some,
  List, [], ◌∷◌, length, keep, Dict, lookup, insert, lookup-insert, ltb, str_eq, eq_iff, member,
  arith, Bool-cases, Option-cases, inl, inr,
}
use mathlib.Core.Option.{some-injective}
use yobi_analytics.Prelude.TextSets.{
  distinct, sorted_set, member-append, member-keep, member-sorted_set, member-distinct,
}
use yobi_analytics.DeliveryLog.{LogRow, already_delivered}
use yobi_analytics.DeliveryLog.Bulk.{
  Ask, read_batches, settled_ids_of, handled_ids, SettledCache, pop_client, entry_of, live_entry,
  is_empty, Bulk, read_unsettled, remember_rows, ids_to_read, delivered_video_ids,
}
use yobi_analytics.DeliveryLog.Paging.{or-cases, IsAnswer, IsBatchGet, read_batches-IsAnswer}
use yobi_analytics.DeliveryLog.Passing.{
  and_true, is_settled_item, member-handled, member-settled, settled-handled, list-ne-none,
}

module _ (read : String → Option LogRow) (ask : Ask) (law : IsBatchGet read ask) where
  -- The uncached read reports exactly the ids asked for whose item is handled.
  pub handled_ids-exact :
      (video_ids : List String) (now : ℕ) (handled : List String)
      → handled_ids ask video_ids now ≡ some handled
      → (v : String) → member v handled ≡ (member v video_ids && already_delivered (read v) now)
  unfolding handled_ids
  handled_ids-exact video_ids now handled h v =
      elim (Option-cases
        (read_batches ask (length (sorted_set video_ids)) (sorted_set video_ids))) [
          | inl e ↦ absurd (list-ne-none handled (sym (rw (e, handled_ids) at h)))
          | inr (rows, e) ↦
              let answer =
                read_batches-IsAnswer read ask _ (sorted_set video_ids) rows law (omega arith) e in
              ap (member v) (sym (some-injective _ _ (rw (e, handled_ids) at h)))
              ∙ member-handled read v (sorted_set video_ids) rows now answer
              ∙ ap (λ b. b && already_delivered (read v) now) (member-sorted_set v video_ids)
        ]

-- Each cached id of each client has a delivered or a suppressed item.
abbrev pub IsSettledCache : (reads : String → String → Option LogRow) → SettledCache → Type 0
IsSettledCache reads cache =
    (client_id : String) (entry : ℕ × List String)
    → lookup client_id cache ≡ some entry
    → (v : String) → member v entry.1 ≡ true
    → is_settled_item (reads client_id v) ≡ true

nothing_there : (v : String) → member v [] ≡ true → ⊥
unfolding member
nothing_there v h = cc

live_entry-settled :
    (read : String → Option LogRow) (monotonic ttl : ℕ) (o : Option (ℕ × List String))
    → ((entry : ℕ × List String)
        → o ≡ some entry
        → (v : String) → member v entry.1 ≡ true
        → is_settled_item (read v) ≡ true)
    → (v : String) → member v (live_entry monotonic ttl (entry_of o)).1 ≡ true
    → is_settled_item (read v) ≡ true
unfolding live_entry
live_entry-settled read monotonic ttl none h v m = elim (Bool-cases (ltb monotonic 0)) [
  | inl e ↦ absurd (nothing_there v (rw e at m))
  | inr e ↦ absurd (nothing_there v (rw e at m))
]
live_entry-settled read monotonic ttl (some (expires_at, settled)) h v m =
    elim (Bool-cases (ltb monotonic expires_at)) [
      | inl e ↦ h (expires_at, settled) refl v (rw e at m)
      | inr e ↦ absurd (nothing_there v (rw e at m))
    ]

-- What a bulk read reports, if it is no error: exactly the ids asked for whose item is handled.
abbrev pub ListsHandled :
    (read : String → Option LogRow) → List String → (now : ℕ) → Option (List String) → Type 0
ListsHandled read video_ids now none = Unit
ListsHandled read video_ids now (some handled) =
    (v : String) → member v handled ≡ (member v video_ids && already_delivered (read v) now)

-- Both halves of what a call reports.
abbrev pub Reports :
    (reads : String → String → Option LogRow)
    → (client_id : String) → (video_ids : List String) → (now : ℕ) → Bulk
    → Type 0
Reports reads client_id video_ids now bulk =
    ((handled : List String)
      → bulk.handled ≡ some handled
      → (v : String)
      → member v handled ≡ (member v video_ids && already_delivered (reads client_id v) now))
    × IsSettledCache reads bulk.cache

union-exact :
    (x s h w e t a : Bool)
    → x ≡ (s || h)
    → s ≡ (e && w)
    → h ≡ (t && a)
    → t ≡ (w && not s)
    → (e ≡ true → a ≡ true)
    → x ≡ (w && a)
union-exact x s h w e t a p q r u imp = ground arith

empty-member : (v : String) (xs : List String) → is_empty xs ≡ true → member v xs ≡ false
unfolding member
empty-member v [] h = refl
empty-member v (x ∷ xs) h = absurd cc

nothing-wanted : (v : String) (m a : Bool) → m ≡ false → member v [] ≡ (m && a)
unfolding member
nothing-wanted v m a h = ground arith

insert-IsSettledCache :
    (reads : String → String → Option LogRow) (client_id : String) (entry : ℕ × List String)
    (cache : SettledCache)
    → IsSettledCache reads cache
    → ((v : String) → member v entry.1 ≡ true → is_settled_item (reads client_id v) ≡ true)
    → IsSettledCache reads (insert client_id entry cache)
insert-IsSettledCache reads client_id entry cache old new c found at v m =
    elim (Bool-cases (str_eq client_id c)) [
      | inl e ↦
          let same : client_id ≡ c = (eq_iff client_id c).0 e in
          let f : entry ≡ found =
            some-injective _ _ (rw e at (sym (lookup-insert client_id c entry cache) ∙ at)) in
          subst (λ x. is_settled_item (reads x v) ≡ true) same
            (new v (subst (λ x. member v x.1 ≡ true) (sym f) m))
      | inr e ↦ old c found (rw e at (sym (lookup-insert client_id c entry cache) ∙ at)) v m
    ]

pop-absent :
    (client_id : String) (cache : SettledCache) (entry : ℕ × List String)
    → lookup client_id (pop_client client_id cache) ≡ some entry
    → ⊥
unfolding lookup
pop-absent client_id [] entry h = cc
pop-absent client_id ((k, e) ∷ cache) entry h = elim (Bool-cases (str_eq k client_id)) [
  | inl t ↦ pop-absent client_id cache entry (rw t at h)
  | inr t ↦ pop-absent client_id cache entry (rw (t, t) at h)
]

lookup-pop :
    (client_id c : String) (cache : SettledCache) (entry : ℕ × List String)
    → lookup c (pop_client client_id cache) ≡ some entry
    → lookup c cache ≡ some entry
unfolding lookup
lookup-pop client_id c [] entry h = h
lookup-pop client_id c ((k, e) ∷ cache) entry h = elim (Bool-cases (str_eq k client_id)) [
  | inl t ↦ elim (Bool-cases (str_eq k c)) [
    | inl u ↦ absurd (
        pop-absent client_id cache entry (
          subst (λ x. lookup x (pop_client client_id cache) ≡ some entry)
            (sym ((eq_iff k c).0 u) ∙ (eq_iff k client_id).0 t) (rw t at h)))
    | inr u ↦ rw u (lookup-pop client_id c cache entry (rw t at h))
  ]
  | inr t ↦ elim (Bool-cases (str_eq k c)) [
    | inl u ↦ rw u (rw (t, u) at h)
    | inr u ↦ rw u (lookup-pop client_id c cache entry (rw (t, u) at h))
  ]
]

pop-IsSettledCache :
    (reads : String → String → Option LogRow) (client_id : String) (cache : SettledCache)
    → IsSettledCache reads cache
    → IsSettledCache reads (pop_client client_id cache)
pop-IsSettledCache reads client_id cache old c entry at v m =
    old c entry (lookup-pop client_id c cache entry at) v m

module _ (reads : String → String → Option LogRow) (ask : Ask) (client_id : String)
    (law : IsBatchGet (reads client_id) ask) where
  remember_rows-Reports :
      (wanted : List String) (now expires_at : ℕ) (old_ids : List String) (cache : SettledCache)
      (o : Option (Dict LogRow))
      → let settled = keep (λ v. member v wanted) old_ids in
        ((v : String) → member v old_ids ≡ true → is_settled_item (reads client_id v) ≡ true)
        → IsSettledCache reads cache
        → ((rows : Dict LogRow)
            → o ≡ some rows
            → IsAnswer (reads client_id) (ids_to_read wanted settled) rows)
        → Reports reads client_id wanted now
            (remember_rows client_id now expires_at settled cache o)
  unfolding remember_rows
  remember_rows-Reports wanted now expires_at old_ids cache none live old answer =
      (λ handled h. absurd (list-ne-none handled (sym h)), old)
  remember_rows-Reports wanted now expires_at old_ids cache (some rows) live old answer = (
    λ handled h v.
        ap (member v) (sym (some-injective _ _ h))
        ∙ union-exact _ (member v (keep (λ w. member w wanted) old_ids)) _ (member v wanted)
            (member v old_ids) (member v (ids_to_read wanted (keep (λ w. member w wanted) old_ids)))
            _ (member-append v _ _) (member-keep (λ w. member w wanted) v old_ids)
            (member-handled (reads client_id) v _ rows now (answer rows refl))
            (member-sorted_set v _ ∙ member-keep _ v wanted)
            (λ m. settled-handled now (reads client_id v) (live v m)),
    insert-IsSettledCache reads client_id _ cache old (λ v m.
        elim (or-cases (member v (keep (λ w. member w wanted) old_ids))
          (member v (settled_ids_of rows)) (sym (member-append v _ _) ∙ m)) [
            | inl k ↦
                live v
                  (and_true (member v old_ids) (member v wanted)
                    (sym (member-keep (λ w. member w wanted) v old_ids) ∙ k)).0
            | inr k ↦
                (and_true _ (is_settled_item (reads client_id v))
                  (sym (member-settled (reads client_id) v _ rows (answer rows refl)) ∙ k)).1
          ]),
  )

  read_unsettled-Reports :
      (wanted : List String) (now : ℕ) (entry : ℕ × List String) (cache : SettledCache)
      → ((v : String) → member v entry.1 ≡ true → is_settled_item (reads client_id v) ≡ true)
      → IsSettledCache reads cache
      → Reports reads client_id wanted now (read_unsettled ask client_id wanted now entry cache)
  unfolding read_unsettled
  read_unsettled-Reports wanted now entry cache live old =
      remember_rows-Reports wanted now entry.0 entry.1 cache _ live old
        (λ rows e. read_batches-IsAnswer (reads client_id) ask _ _ rows law (omega arith) e)

  pub delivered_video_ids-Reports :
      (video_ids : List String) (now monotonic ttl : ℕ) (cache : SettledCache)
      → IsSettledCache reads cache
      → Reports reads client_id video_ids now
          (delivered_video_ids ask client_id video_ids now monotonic ttl cache)
  unfolding delivered_video_ids
  delivered_video_ids-Reports video_ids now monotonic ttl cache old =
      elim (Bool-cases (is_empty (distinct video_ids))) [
        | inl e ↦ rw e (
          λ handled h v.
              ap (member v) (sym (some-injective _ _ h))
              ∙ nothing-wanted v (member v video_ids) _
                  (sym (member-distinct v video_ids) ∙ empty-member v (distinct video_ids) e),
          pop-IsSettledCache reads client_id cache old,
        )
        | inr e ↦ rw e (
            let (reported, kept) =
              read_unsettled-Reports (distinct video_ids) now
                (live_entry monotonic ttl (entry_of (lookup client_id cache))) cache
                (live_entry-settled (reads client_id) monotonic ttl (lookup client_id cache)
                  (λ entry h. old client_id entry h))
                old in
            (
              λ handled h v.
                  reported handled h v
                  ∙ ap (λ b. b && already_delivered (reads client_id v) now)
                      (member-distinct v video_ids),
              kept,
            ))
      ]

  ListsHandled-Reports :
      (video_ids : List String) (now : ℕ) (o : Option (List String))
      → ((handled : List String)
          → o ≡ some handled
          → (v : String)
          → member v handled ≡ (member v video_ids && already_delivered (reads client_id v) now))
      → ListsHandled (reads client_id) video_ids now o
  ListsHandled-Reports video_ids now none h = tt
  ListsHandled-Reports video_ids now (some handled) h = h handled refl

  -- Where the cache holds settled ids only, the cached read reports, as the uncached one does, exactly
  -- the ids asked for whose item is handled, and the cache still holds settled ids only; so it does
  -- after an error.
  pub delivered_video_ids-exact :
      (video_ids : List String) (now monotonic ttl : ℕ) (cache : SettledCache)
      → IsSettledCache reads cache
      → let bulk = delivered_video_ids ask client_id video_ids now monotonic ttl cache in
        ListsHandled (reads client_id) video_ids now bulk.handled × IsSettledCache reads bulk.cache
  delivered_video_ids-exact video_ids now monotonic ttl cache old =
      let (reported, kept) = delivered_video_ids-Reports video_ids now monotonic ttl cache old in
      (ListsHandled-Reports video_ids now _ reported, kept)
