-- ===== src/Reminders/Stamps.antt =====
-- What `derive_first_seen` keeps of the previous stamps and what it adds.
use yobi_analytics.Prelude.{
  ℕ, ◌+◌, ◌*◌, ◌/◌, ◌<◌, ◌==◌, ◌≡◌, ◌≢◌, refl, sym, ap, ◌∙◌, ◌⊎◌, inl, inr, String, Bool, true,
  false, not, ◌&&◌, Option, none, some, [], ◌∷◌, Dict, lookup, is_some, arith, Bool-cases, eq_iff,
  str_eq, ==_iff, lt→ltb,
}
use mathlib.Core.Option.{some-injective}
use yobi_analytics.Reminders.{
  FirstSeen, StreamScheduleEntry, minute_ms, epoch_ms, first_seen_retention_after_start_ms,
}
use yobi_analytics.Prelude.Dicts.{lookup-append_left, lookup-append_right, lookup-keep}
use yobi_analytics.Reminders.Derive.{
  StreamScheduleSnapshot, previous_stamps, or_empty, is_trusted, trusted_instant, known_entry,
  old_minute, stamp_after, next_stamp, stamp_entries, is_retained, derive_first_seen,
}

num-ne-none : (n : ℕ) → some n ≡ none → ⊥
num-ne-none n h = cc

module _ (previous : Option StreamScheduleSnapshot) (instant : Option ℕ) where
  lookup-stamped :
      (entries : Dict ℕ) (v : String) (start : ℕ)
      → lookup v entries ≡ some start
      → lookup v (stamp_entries previous instant entries)
        ≡ some (
            next_stamp instant
              (lookup v (or_empty (previous_stamps previous)))
              (known_entry previous v)
              (start / minute_ms))
  unfolding lookup stamp_entries
  lookup-stamped [] v start h = absurd cc
  lookup-stamped ((j, s) ∷ entries) v start h = elim (Bool-cases (str_eq j v)) [
    | inl e ↦
        let f : s ≡ start = some-injective _ _ (rw e at h) in
        let g : j ≡ v = (eq_iff j v).0 e in rw e (rw (g, f) refl)
    | inr e ↦ rw e (lookup-stamped entries v start (rw e at h))
  ]

  lookup-unstamped :
      (entries : Dict ℕ) (v : String)
      → lookup v entries ≡ none
      → lookup v (stamp_entries previous instant entries) ≡ none
  unfolding lookup stamp_entries
  lookup-unstamped [] v h = refl
  lookup-unstamped ((j, s) ∷ entries) v h = elim (Bool-cases (str_eq j v)) [
    | inl e ↦ absurd (num-ne-none s (rw e at h))
    | inr e ↦ rw e (lookup-unstamped entries v (rw e at h))
  ]

differs : (a b : ℕ) → (a == b) ≡ false → some a ≡ some b → ⊥
differs a b h e = ground (arith, some-injective _ _ e)

next_stamp-origin :
    (instant : Option ℕ) (stamp : Option FirstSeen) (entry : Option StreamScheduleEntry)
    (minute : ℕ)
    → let s = next_stamp instant stamp entry minute in
      (s.start_minute ≡ minute)
      × ((stamp ≡ some s)
          ⊎ (s.first_seen_at ≡ none)
          ⊎ (s.first_seen_at ≡ instant) × (old_minute stamp entry ≢ some minute))
unfolding next_stamp stamp_after old_minute
next_stamp-origin instant none none minute =
    (refl, inr (inr (refl, λ h. num-ne-none minute (sym h))))
next_stamp-origin instant none (some entry) minute =
    elim (Bool-cases (entry.scheduled_start_ms / minute_ms == minute)) [
      | inl e ↦ rw e (refl, inr (inl refl))
      | inr e ↦ rw e (refl, inr (inr (refl, differs _ _ e)))
    ]
next_stamp-origin instant (some stamp) entry minute =
    elim (Bool-cases (stamp.start_minute == minute)) [
      | inl e ↦ rw e ((==_iff _ _).0 e, inl refl)
      | inr e ↦ rw e (refl, inr (inr (refl, differs _ _ e)))
    ]

-- The instant is kept only under trust.
trusted_instant-cases :
    (b : Bool) (observed_at : Option ℕ)
    → (trusted_instant b observed_at ≡ none)
      ⊎ (b ≡ true) × (trusted_instant b observed_at ≡ observed_at)
trusted_instant-cases true observed_at = inr (refl, refl)
trusted_instant-cases false observed_at = inl refl

trusted-origin :
    (trusted : Bool) (seen instant observed_at : Option ℕ) (Same Unknown : Type 0)
    → (instant ≡ none) ⊎ (trusted ≡ true) × (instant ≡ observed_at)
    → Same ⊎ (seen ≡ none) ⊎ (seen ≡ instant) × Unknown
    → Same ⊎ (seen ≡ none) ⊎ (trusted ≡ true) × (seen ≡ observed_at) × Unknown
trusted-origin trusted seen instant observed_at Same Unknown t (inl same) = inl same
trusted-origin trusted seen instant observed_at Same Unknown t (inr (inl h)) = inr (inl h)
trusted-origin trusted seen instant observed_at Same Unknown (inl e) (inr (inr (f, u))) =
    inr (inl (f ∙ e))
trusted-origin trusted seen instant observed_at Same Unknown (inr (y, e)) (inr (inr (f, u))) =
    inr (inr (y, f ∙ e, u))

absent-passes :
    (o : Option FirstSeen) (b : Bool) → o ≡ none → b ≡ true → (not (is_some o) && b) ≡ true
absent-passes o b h k = rw (h, k) refl

module _ (previous : Option StreamScheduleSnapshot) (entries : Dict ℕ) (observed_at : Option ℕ)
    (now max_source_gap : ℕ) where
  lookup-derived :
      (v : String) (start : ℕ)
      → lookup v entries ≡ some start
      → lookup v (derive_first_seen previous entries observed_at now max_source_gap)
        ≡ some (
            next_stamp
              (trusted_instant (is_trusted previous observed_at max_source_gap) observed_at)
              (lookup v (or_empty (previous_stamps previous)))
              (known_entry previous v)
              (start / minute_ms))
  unfolding derive_first_seen
  lookup-derived v start h =
      lookup-append_left v _ _ _ (lookup-stamped previous _ entries v start h)

  -- A stamp that is kept for a stream that has left the snapshot.
  lookup-retained :
      (v : String) (s : FirstSeen)
      → lookup v entries ≡ none
      → lookup v (or_empty (previous_stamps previous)) ≡ some s
      → is_retained now s ≡ true
      → lookup v (derive_first_seen previous entries observed_at now max_source_gap) ≡ some s
  unfolding derive_first_seen
  lookup-retained v s gone known young =
      lookup-append_right v _ _ (lookup-unstamped previous _ entries v gone)
      ∙ lookup-keep v _ _ s known
          (absent-passes _ _ (lookup-unstamped previous _ entries v gone) young)

  -- The stamp derived for a listed stream is for its start minute, and is the stream's previous stamp,
  -- or has no instant, or has the instant of the snapshot: then tracking is trusted and the stream was
  -- not known to start in that minute.
  pub derived_stamp-origin :
      (v : String) (start : ℕ)
      → lookup v entries ≡ some start
      → (s : FirstSeen) × (lookup v
            (derive_first_seen previous entries observed_at now max_source_gap)
          ≡ some s)
        × (s.start_minute ≡ start / minute_ms)
        × ((lookup v (or_empty (previous_stamps previous)) ≡ some s)
            ⊎ (s.first_seen_at ≡ none)
            ⊎ (is_trusted previous observed_at max_source_gap ≡ true)
              × (s.first_seen_at ≡ observed_at)
              × (old_minute
                    (lookup v (or_empty (previous_stamps previous)))
                    (known_entry previous v)
                  ≢ some (start / minute_ms)))
  derived_stamp-origin v start h =
      let (minute, origin) =
        next_stamp-origin
          (trusted_instant (is_trusted previous observed_at max_source_gap) observed_at)
          (lookup v (or_empty (previous_stamps previous))) (known_entry previous v)
          (start / minute_ms) in
      (
        _,
        lookup-derived v start h,
        minute,
        trusted-origin _ _ _ _ _ _ (trusted_instant-cases _ observed_at) origin,
      )

known-unchanged :
    (instant : Option ℕ) (s : FirstSeen) (entry : Option StreamScheduleEntry) (minute : ℕ)
    → minute ≡ s.start_minute
    → next_stamp instant (some s) entry minute ≡ s
unfolding next_stamp stamp_after old_minute
known-unchanged instant s entry minute h =
    rw (h, (==_iff s.start_minute s.start_minute).1 refl) refl

-- A stream that one snapshot leaves out, and the next lists again for the same minute, keeps its
-- stamp, as long as the first of the two derivations is within two hours of its start.
pub dropout_keeps_stamp :
    (previous : Option StreamScheduleSnapshot) (first second : Dict ℕ)
    (observed_first observed_second : Option ℕ)
    (now_first now_second refreshed_at max_source_gap : ℕ) (listed : Dict StreamScheduleEntry)
    (v : String) (s : FirstSeen) (start : ℕ)
    → lookup v (or_empty (previous_stamps previous)) ≡ some s
    → lookup v first ≡ none
    → epoch_ms now_first < s.start_minute * minute_ms + first_seen_retention_after_start_ms
    → lookup v second ≡ some start
    → start / minute_ms ≡ s.start_minute
    → let between : StreamScheduleSnapshot = record {
      entries = listed;
      refreshed_at = refreshed_at;
      source_refreshed_at = observed_first;
      first_seen = some (derive_first_seen previous first observed_first now_first max_source_gap);
    } in
      lookup v (derive_first_seen (some between) second observed_second now_second max_source_gap)
      ≡ some s
dropout_keeps_stamp previous first second observed_first observed_second now_first now_second
      refreshed_at max_source_gap listed v s start known gone young back same =
    lookup-derived _ second observed_second now_second max_source_gap v start back
    ∙ ap some (
        rw
          (lookup-retained previous first observed_first now_first max_source_gap v s gone known
            (lt→ltb _ _ young))
          (known-unchanged _ s _ _ same))
