-- ===== src/TrackingSchedule/Selection.antt =====
-- What `select_due_video_ids` of src/tracking/tracking_schedule.py returns from day to day.
use yobi_analytics.Prelude.{
  ℕ, ◌+◌, ◌<◌, ◌≡◌, ◌⊎◌, inl, inr, refl, sym, ap, String, Bool, true, false, some, List, [], ◌∷◌,
  map, arith, member, str_eq, eq_iff, eq_refl, Bool-cases, subst, ◌∙◌,
}
use yobi_analytics.Prelude.Sort.{IsSorted, sorted-IsSorted}
use yobi_analytics.Prelude.TextOrder.{text_le, text_le-total, text_le_trans}
use yobi_analytics.Prelude.TextSets.{member-sorted}
use yobi_analytics.Prelude.Distinct.{IsDistinct, sorted-IsDistinct}
use yobi_analytics.TrackingSchedule.{
  Candidate, cycle_days_by_state, is_due_today, due_ids, select_due_video_ids,
}
use yobi_analytics.TrackingSchedule.Due.{is_due_today-once_per_cycle}

abbrev pub ids_of : List Candidate → List String
ids_of cs = map (λ c. c.video_id) cs

abbrev pub IsCandidate : Candidate → List Candidate → Type 0
IsCandidate c [] = ⊥
IsCandidate c (d ∷ ds) = (d ≡ c) ⊎ IsCandidate c ds

listed :
    (c : Candidate) (cs : List Candidate) → IsCandidate c cs → member c.video_id (ids_of cs) ≡ true
unfolding member
listed c [] h = absurd h
listed c (d ∷ cs) (inl e) = rw (ap (λ x. x.video_id) e, eq_refl c.video_id) refl
listed c (d ∷ cs) (inr h) = ground (arith, listed c cs h)

module _ (digest : String → ℕ) (as_of : ℕ) where
  due_ids-within :
      (k : String) (cs : List Candidate)
      → member k (ids_of cs) ≡ false
      → member k (due_ids digest cs as_of) ≡ false
  unfolding due_ids member
  due_ids-within k [] h = refl
  due_ids-within k (c ∷ cs) h = ground (arith, due_ids-within k cs)

  due_ids-IsDistinct :
      (cs : List Candidate) → IsDistinct (ids_of cs) → IsDistinct (due_ids digest cs as_of)
  unfolding due_ids
  due_ids-IsDistinct [] h = tt
  due_ids-IsDistinct (c ∷ cs) (new, rest) = elim (Bool-cases (is_due_today digest c as_of)) [
    | inl e ↦ rw e (due_ids-within c.video_id cs new, due_ids-IsDistinct cs rest)
    | inr e ↦ rw e (due_ids-IsDistinct cs rest)
  ]

  -- Where no id is there twice, a candidate is among the due ones by its own test alone.
  member-due_ids :
      (c : Candidate) (cs : List Candidate)
      → IsDistinct (ids_of cs)
      → IsCandidate c cs
      → member c.video_id (due_ids digest cs as_of) ≡ is_due_today digest c as_of
  unfolding due_ids member
  member-due_ids c [] h x = absurd x
  member-due_ids c (d ∷ cs) (new, rest) (inl e) =
      subst (λ x. member x.video_id (due_ids digest (d ∷ cs) as_of) ≡ is_due_today digest x as_of) e
        (elim (Bool-cases (is_due_today digest d as_of)) [
          | inl due ↦ rw (due, eq_refl d.video_id) refl
          | inr idle ↦ rw idle (due_ids-within d.video_id cs new)
        ])
  member-due_ids c (d ∷ cs) (new, rest) (inr h) =
      let other : str_eq d.video_id c.video_id ≡ false =
        apart (str_eq d.video_id c.video_id) (λ same. sym (
          sym new
          ∙ ap (λ k. member k (ids_of cs)) ((eq_iff d.video_id c.video_id).0 same)
          ∙ listed c cs h)) in
      elim (Bool-cases (is_due_today digest d as_of)) [
        | inl due ↦ rw (due, other) (member-due_ids c cs rest h)
        | inr idle ↦ rw idle (member-due_ids c cs rest h)
      ]
    where
      apart : (b : Bool) → (b ≡ true → true ≡ false) → b ≡ false
      apart true f = f refl
      apart false f = refl

  selected_by_own_test :
      (c : Candidate) (cs : List Candidate)
      → IsDistinct (ids_of cs)
      → IsCandidate c cs
      → member c.video_id (select_due_video_ids digest cs as_of) ≡ is_due_today digest c as_of
  unfolding select_due_video_ids
  selected_by_own_test c cs apart h =
      member-sorted text_le c.video_id (due_ids digest cs as_of) ∙ member-due_ids c cs apart h

  selection-IsSorted :
      (cs : List Candidate) → IsSorted text_le (select_due_video_ids digest cs as_of)
  unfolding select_due_video_ids
  selection-IsSorted cs =
      sorted-IsSorted text_le text_le-total text_le_trans (due_ids digest cs as_of)

  selection-IsDistinct :
      (cs : List Candidate)
      → IsDistinct (ids_of cs)
      → IsDistinct (select_due_video_ids digest cs as_of)
  unfolding select_due_video_ids
  selection-IsDistinct cs h =
      sorted-IsDistinct text_le (due_ids digest cs as_of) (due_ids-IsDistinct cs h)

-- Among candidates of different ids, each that is older than seven days and in a state with a cycle is
-- selected on exactly one day of every `cycle` days in a row, wherever one starts to count and whatever
-- the other candidates are; and each day's selection is in ascending order and names no id twice.
pub select_due_video_ids-once_per_cycle :
    (digest : String → ℕ) (cs : List Candidate) (c : Candidate) (published start cycle : ℕ)
    → IsDistinct (ids_of cs)
    → IsCandidate c cs
    → c.published_on ≡ some published
    → cycle_days_by_state c.activity_state ≡ some cycle
    → published + 7 < start
    → (i : ℕ) × (i < cycle)
      × (member c.video_id (select_due_video_ids digest cs (start + i)) ≡ true)
      × ((j : ℕ)
          → j < cycle
          → member c.video_id (select_due_video_ids digest cs (start + j)) ≡ true
          → j ≡ i)
      × ((as_of : ℕ)
          → IsSorted text_le (select_due_video_ids digest cs as_of)
            × IsDistinct (select_due_video_ids digest cs as_of))
select_due_video_ids-once_per_cycle digest cs c published start cycle apart there on by_state old =
    let (i, below, due, only) =
      is_due_today-once_per_cycle digest c published start cycle on by_state old in
    let own = λ (k : ℕ). selected_by_own_test digest (start + k) c cs apart there in
    (
      i,
      below,
      own i ∙ due,
      (λ j h selected. only j h (sym (own j) ∙ selected)),
      λ as_of. (selection-IsSorted digest as_of cs, selection-IsDistinct digest as_of cs apart),
    )
