-- ===== src/Reminders/Priors.antt =====
-- The start minutes that a stamp remembers.
use yobi_analytics.Prelude.{
  ℕ, ◌/◌, ◌≤◌, ◌==◌, inl, inr, String, Option, none, some, List, [], ◌∷◌, ◌++◌, length, All,
  All-append, All-keep, All-map_pred, Dict, lookup, arith, Bool-cases, str_eq,
}
use yobi_analytics.Reminders.{FirstSeen, StreamScheduleEntry, minute_ms, max_prior_start_minutes}
use yobi_analytics.Reminders.Derive.{
  StreamScheduleSnapshot, previous_stamps, or_empty, take_last, known_entry, old_minute,
  stamp_after, base_prior, next_stamp, stamp_entries, derive_first_seen,
}

length-take_last : (n : ℕ) (xs : List ℕ) → length (take_last n xs) ≤ n
unfolding take_last
length-take_last n [] = omega arith
length-take_last n (x ∷ xs) = ground (arith, length-take_last n xs)

abbrev pub HasFewPriors : String × FirstSeen → Type 0
HasFewPriors e = length e.1.prior_start_minutes ≤ max_prior_start_minutes

lookup-few :
    (v : String) (d : Dict FirstSeen)
    → All HasFewPriors d
    → length (base_prior (lookup v d)) ≤ max_prior_start_minutes
unfolding lookup
lookup-few v [] h = omega arith
lookup-few v ((j, s) ∷ d) h = elim (Bool-cases (str_eq j v)) [
  | inl e ↦ rw e (h.0)
  | inr e ↦ rw e (lookup-few v d h.1)
]

next_stamp-few :
    (instant : Option ℕ) (stamp : Option FirstSeen) (entry : Option StreamScheduleEntry)
    (minute : ℕ)
    → length (base_prior stamp) ≤ max_prior_start_minutes
    → length (next_stamp instant stamp entry minute).prior_start_minutes ≤ max_prior_start_minutes
unfolding next_stamp stamp_after old_minute
next_stamp-few instant none none minute h = h
next_stamp-few instant none (some entry) minute h =
    elim (Bool-cases (entry.scheduled_start_ms / minute_ms == minute)) [
      | inl e ↦ rw e h
      | inr e ↦ rw e (
          length-take_last max_prior_start_minutes
            ([] ++ (entry.scheduled_start_ms / minute_ms ∷ [])))
    ]
next_stamp-few instant (some stamp) entry minute h =
    elim (Bool-cases (stamp.start_minute == minute)) [
      | inl e ↦ rw e h
      | inr e ↦ rw e (
          length-take_last max_prior_start_minutes
            (stamp.prior_start_minutes ++ (stamp.start_minute ∷ [])))
    ]

stamp_entries-few :
    (previous : Option StreamScheduleSnapshot) (instant : Option ℕ) (entries : Dict ℕ)
    → All HasFewPriors (or_empty (previous_stamps previous))
    → All HasFewPriors (stamp_entries previous instant entries)
unfolding stamp_entries
stamp_entries-few previous instant [] h = tt
stamp_entries-few previous instant (e ∷ entries) h = (
  next_stamp-few instant _ (known_entry previous e.0) (e.1 / minute_ms)
      (lookup-few e.0 (or_empty (previous_stamps previous)) h),
  stamp_entries-few previous instant entries h,
)

-- No list of prior starts grows past its bound.
pub priors_stay_bounded :
    (previous : Option StreamScheduleSnapshot) (entries : Dict ℕ) (observed_at : Option ℕ)
    (now max_source_gap : ℕ)
    → All HasFewPriors (or_empty (previous_stamps previous))
    → All HasFewPriors (derive_first_seen previous entries observed_at now max_source_gap)
unfolding derive_first_seen
priors_stay_bounded previous entries observed_at now max_source_gap h =
    All-append HasFewPriors _ _ (stamp_entries-few previous _ entries h)
      (All-keep HasFewPriors _ _ (All-map_pred (λ e few _. few) _ h))
