-- ===== src/Slots/Served.antt =====
-- due_local_slots of src/notifications/delivery_slots.py: which ticks serve the slots of a date.
use yobi_analytics.Prelude.{
  ℕ, zero, suc, ◌+◌, ◌-◌, ◌*◌, ◌/◌, ◌≤◌, ◌<◌, ◌≡◌, refl, ap, ◌∙◌, ◌⊎◌, inl, inr, Bool, true, false,
  ◌&&◌, ◌||◌, none, some, List, [], ◌∷◌, ◌++◌, keep, exists, ltb, leb, ◌==◌, ==_iff, lt→ltb,
  Bool-cases, arith,
}
use yobi_analytics.Prelude.SortKeep.{exists-append, exists-sorted}
use yobi_analytics.Slots.Keys.{slots_per_day}
use yobi_analytics.Slots.Due.{
  Time, tick_minutes, slot_of_time, slot_on_boundary, slot_start_time, distinct_slots, ascending,
  slots_from, in_tick, starts_in, due_on_date, due_local_slots,
}

-- The slot is in the list.
abbrev pub lists : ℕ → List ℕ → Bool
lists slot slots = exists (λ y. y == slot) slots

lists-distinct_slots : (s : ℕ) (xs : List ℕ) → lists s (distinct_slots xs) ≡ lists s xs
unfolding distinct_slots
lists-distinct_slots s [] = refl
lists-distinct_slots s (x ∷ xs) =
    ground (arith, lists-distinct_slots s xs, lists-distinct_slots x xs, ==_iff x s)

lists-ascending : (s : ℕ) (xs : List ℕ) → lists s (ascending xs) ≡ lists s xs
unfolding ascending
lists-ascending s xs =
    exists-sorted leb (λ y. y == s) (distinct_slots xs) ∙ lists-distinct_slots s xs

lists-slots_from : (s a n : ℕ) → lists s (slots_from a n) ≡ (leb a s && ltb s (a + n))
unfolding slots_from
lists-slots_from s a zero = ground arith
lists-slots_from s a (suc n) = ground (arith, lists-slots_from s (suc a) n)

lists-keep : (s : ℕ) (p : ℕ → Bool) (xs : List ℕ) → lists s (keep p xs) ≡ (lists s xs && p s)
lists-keep s p [] = refl
lists-keep s p (x ∷ xs) = ground (arith, lists-keep s p xs, ==_iff x s)

one_of : (a b c : Bool) → (a ≡ true) ⊎ ((b ≡ true) ⊎ (c ≡ true)) → (a || (b || c)) ≡ true
one_of a b c (inl h) = rw h refl
one_of true b c (inr h) = refl
one_of false b c (inr (inl h)) = rw h refl
one_of false true c (inr (inr h)) = refl
one_of false false c (inr (inr h)) = h

slot_in_day : (s : ℕ) (start : Time) → slot_start_time s ≡ some start → ltb s slots_per_day ≡ true
unfolding slot_start_time
slot_in_day s start h = elim (Bool-cases (ltb s slots_per_day)) [
  | inl e ↦ e
  | inr e ↦ absurd (none-ne-some start (rw e at h))
]
  where
    none-ne-some : (t : Time) → none ≡ some t → ⊥
    none-ne-some t k = cc

-- The first tick at or after an instant.
abbrev pub tick_after : ℕ → ℕ
tick_after instant = tick_minutes * ((instant + 14) / tick_minutes)

tick_after-bounds :
    (instant : ℕ) → (instant ≤ tick_after instant) × (tick_after instant < instant + tick_minutes)
tick_after-bounds instant = (omega arith, omega arith)

in_one_tick :
    (instant m : ℕ) → in_tick (tick_minutes * m) instant ≡ (m == (instant + 14) / tick_minutes)
in_one_tick instant m = ground arith

module _ (instant_of : ℕ → Time → ℕ) (local_date : ℕ → ℕ) where
  abbrev pub starts : ℕ → ℕ → ℕ → Bool
  starts tick date slot = starts_in instant_of tick date (slot_start_time slot)

  lists-due_on_date :
      (s tick date : ℕ)
      → lists s (due_on_date instant_of tick date) ≡ (ltb s slots_per_day && starts tick date s)
  unfolding due_on_date
  lists-due_on_date s tick date =
      lists-keep s (λ slot. starts tick date slot) (slots_from 0 slots_per_day)
      ∙ rw (lists-slots_from s 0 slots_per_day) (ground arith)

  -- A tick serves exactly the slots of the day that start, on the zone's date at the tick or on one
  -- of the two dates beside it, after the tick before and not after this one.
  pub due_slots_start_in_tick :
      (s tick : ℕ)
      → let today = local_date tick in
        lists s (due_local_slots instant_of local_date tick) ≡ (
          ltb s slots_per_day
          && (starts tick (today - 1) s || (starts tick today s || starts tick (suc today) s)))
  unfolding due_local_slots
  due_slots_start_in_tick s tick =
      let today = local_date tick in
      let before = due_on_date instant_of tick (today - 1) in
      let now = due_on_date instant_of tick today in
      let next = due_on_date instant_of tick (suc today) in
      lists-ascending s (before ++ (now ++ next))
      ∙ exists-append (λ y. y == s) before (now ++ next)
      ∙ rw
          (
            exists-append (λ y. y == s) now next,
            lists-due_on_date s tick (today - 1),
            lists-due_on_date s tick today,
            lists-due_on_date s tick (suc today),
          )
          (ground arith)

  near_starts :
      (s date today tick : ℕ)
      → starts tick date s ≡ true
      → (today ≡ suc date) ⊎ ((today ≡ date) ⊎ (suc today ≡ date))
      → (starts tick (today - 1) s || (starts tick today s || starts tick (suc today) s)) ≡ true
  near_starts s date today tick h (inl e) =
      one_of (starts tick (today - 1) s) (starts tick today s) (starts tick (suc today) s)
        (inl (ap (λ d. starts tick d s) (omega arith) ∙ h))
  near_starts s date today tick h (inr (inl e)) =
      one_of (starts tick (today - 1) s) (starts tick today s) (starts tick (suc today) s)
        (inr (inl (ap (λ d. starts tick d s) e ∙ h)))
  near_starts s date today tick h (inr (inr e)) =
      one_of (starts tick (today - 1) s) (starts tick today s) (starts tick (suc today) s)
        (inr (inr (ap (λ d. starts tick d s) e ∙ h)))

  -- A slot of a date, in a zone whose date at the tick after the slot's start is that date or one
  -- beside it, is served by that tick: at the start or up to 14 minutes later. Of all the ticks of
  -- 15 minutes it is the only one in which that start lies.
  pub slot_is_served :
      (s date : ℕ) (start : Time)
      → slot_start_time s ≡ some start
      → (local_date (tick_after (instant_of date start)) ≡ suc date)
        ⊎ ((local_date (tick_after (instant_of date start)) ≡ date)
            ⊎ (suc (local_date (tick_after (instant_of date start))) ≡ date))
      → let instant = instant_of date start in
        (lists s (due_local_slots instant_of local_date (tick_after instant)) ≡ true)
        × (instant ≤ tick_after instant)
        × (tick_after instant < instant + tick_minutes)
        × ((m : ℕ) → in_tick (tick_minutes * m) instant ≡ (m == (instant + 14) / tick_minutes))
  slot_is_served s date start e near =
      let instant = instant_of date start in
      let tick = tick_after instant in
      let (at, soon) = tick_after-bounds instant in
      let here : starts tick date s ≡ true = rw e (ground arith) in
      (
        due_slots_start_in_tick s tick
            ∙ rw (slot_in_day s start e) (near_starts s date (local_date tick) tick here near),
        at,
        soon,
        in_one_tick instant,
      )

-- The start of a slot reads back as the slot.
pub slot_on_boundary-start :
    (s : ℕ) → s < slots_per_day → slot_on_boundary (slot_start_time s) ≡ some s
unfolding slot_on_boundary slot_start_time slot_of_time
slot_on_boundary-start s h = rw (lt→ltb s slots_per_day h) (ground arith)
