-- ===== src/TrackingSchedule/Bootstrap.antt =====
-- The states that a run of observations can reach: what the evidence gate and the streaks promise.
use yobi_analytics.Prelude.{
  ℕ, ◌+◌, ◌≤◌, ◌<◌, ◌≡◌, refl, ◌⊎◌, inl, inr, Bool, true, false, some, none, List, [], ◌∷◌, arith,
  length, subst, sym,
}
use yobi_analytics.TrackingSchedule.{
  ActivityState, unknown, hot, warm, cold, unrecognized, Floats, Tracked, growth_verdict,
  ClassificationResult, classify_after_observation, classify_from, classify_growth,
}

-- A statistics observation: the view count and its instant.
pub record Observation : Type 0 where
  pub view_count : ℕ
  pub at : ℕ

-- What a state says of the number of observations and of the quiet streak.
abbrev pub StateFacts : ActivityState → ℕ → ℕ → Type 0
StateFacts unknown count streak = (count < 3) × (streak ≡ 0)
StateFacts hot count streak = (2 ≤ count) × (streak < 2)
StateFacts warm count streak = (3 ≤ count) × (streak < 3)
StateFacts cold count streak = 3 ≤ count
StateFacts (unrecognized t) count streak = ⊥

-- An observation of a video that has been observed before keeps the facts.
growth_verdict-StateFacts :
    (h w : Bool) (s : ActivityState) (count streak : ℕ)
    → 1 ≤ count
    → StateFacts s count streak
    → StateFacts
        (growth_verdict h w s (count + 1) streak).state
        (count + 1)
        (growth_verdict h w s (count + 1) streak).streak
unfolding growth_verdict
growth_verdict-StateFacts true w unknown count streak pos f = (omega arith, omega arith)
growth_verdict-StateFacts false true unknown count streak pos f = ground arith
growth_verdict-StateFacts false false unknown count streak pos f = ground arith
growth_verdict-StateFacts true w hot count streak pos f = (omega arith, omega arith)
growth_verdict-StateFacts false true hot count streak pos f = (omega arith, omega arith)
growth_verdict-StateFacts false false hot count streak pos f = ground arith
growth_verdict-StateFacts true w warm count streak pos f = (omega arith, omega arith)
growth_verdict-StateFacts false true warm count streak pos f = (omega arith, omega arith)
growth_verdict-StateFacts false false warm count streak pos f = ground arith
growth_verdict-StateFacts true w cold count streak pos f = (omega arith, omega arith)
growth_verdict-StateFacts false true cold count streak pos f = (omega arith, omega arith)
growth_verdict-StateFacts false false cold count streak pos f = omega arith
growth_verdict-StateFacts h w (unrecognized t) count streak pos f = absurd f

growth_verdict-facts :
    (h w : Bool) (s : ActivityState) (k n streak : ℕ)
    → k ≡ n
    → 1 ≤ n
    → StateFacts s n streak
    → StateFacts
        (growth_verdict h w s (k + 1) streak).state
        (n + 1)
        (growth_verdict h w s (k + 1) streak).streak
growth_verdict-facts h w s k n streak e pos f =
    subst
      (λ m.
        StateFacts (growth_verdict h w s (m + 1) streak).state (n + 1)
          (growth_verdict h w s (m + 1) streak).streak)
      (sym e) (growth_verdict-StateFacts h w s n streak pos f)

-- What a video's record holds after `n` observations.
pub record IsTracked (n : ℕ) (t : Tracked) : Type 0 where
  pub counted : t.snapshot_count ≡ n
  pub baseline :
      ((n ≡ 0) × (t.last_view_count ≡ none))
      ⊎ ((1 ≤ n)
          × ((v : ℕ) × (t.last_view_count ≡ some v))
          × ((at : ℕ) × (t.last_checked_at ≡ some at)))
  pub facts : StateFacts t.activity_state n t.quiet_streak

-- A newly discovered video.
abbrev pub new_video : Tracked
new_video = record {
  activity_state = unknown;
  snapshot_count = 0;
  quiet_streak = 0;
  last_view_count = none;
  last_checked_at = none;
}

module _ (fl : Floats) where
  -- What _build_scheduler_updates stores of a newer observation.
  unfoldable pub observe : Tracked → Observation → Tracked
  observe t o =
      let result = classify_after_observation fl t o.view_count o.at in
      record {
        activity_state = result.activity_state;
        snapshot_count = result.snapshot_count;
        quiet_streak = result.quiet_streak;
        last_view_count = some o.view_count;
        last_checked_at = some o.at;
      }

  unfoldable pub observe_all : Tracked → List Observation → Tracked
  observe_all t [] = t
  observe_all t (o ∷ os) = observe_all (observe t o) os

  abbrev Counts : ℕ → ClassificationResult fl → Type 0
  Counts n r = (r.snapshot_count ≡ n) × StateFacts r.activity_state n r.quiet_streak

  classify-Counts :
      (n : ℕ) (t : Tracked) (v at : ℕ)
      → IsTracked n t
      → Counts (n + 1) (classify_after_observation fl t v at)
  unfolding classify_after_observation classify_from classify_growth
  classify-Counts n t v at i = elim i.baseline [
    | inl (z, e) ↦ rw e (omega (arith, i.counted), (omega arith, refl))
    | inr (pos, (v', ev), (at', ea)) ↦
        subst (λ views. Counts (n + 1) (classify_from fl t views t.last_checked_at v at)) (sym ev)
          (subst (λ checked. Counts (n + 1) (classify_from fl t (some v') checked v at)) (sym ea)
            (
              omega (arith, i.counted),
              growth_verdict-facts _ _ t.activity_state t.snapshot_count n t.quiet_streak i.counted
                  pos i.facts,
            ))
  ]

  observe-IsTracked :
      (n : ℕ) (t : Tracked) (o : Observation) → IsTracked n t → IsTracked (n + 1) (observe t o)
  unfolding observe
  observe-IsTracked n t o i =
      let (counted, facts) = classify-Counts n t o.view_count o.at i in
      record {
        counted = counted;
        baseline = inr (omega arith, (o.view_count, refl), (o.at, refl));
        facts = facts;
      }

  observe_all-IsTracked :
      (os : List Observation) (n : ℕ) (t : Tracked)
      → IsTracked n t
      → IsTracked (n + length os) (observe_all t os)
  unfolding observe_all
  observe_all-IsTracked [] n t i = subst (λ k. IsTracked k t) (omega arith) i
  observe_all-IsTracked (o ∷ os) n t i =
      subst (λ k. IsTracked k (observe_all (observe t o) os)) (omega arith)
        (observe_all-IsTracked os (n + 1) (observe t o) (observe-IsTracked n t o i))

  -- After any observations of a new video, whatever its growth measures are: its snapshots are
  -- counted, it is Unknown only before its third snapshot, Warm or Cold only from it on, Hot only
  -- from its second on, and a Hot streak stays below two, a Warm one below three; no other state
  -- occurs.
  pub observe_all-new_video :
      (os : List Observation) → IsTracked (length os) (observe_all new_video os)
  observe_all-new_video os =
      subst (λ k. IsTracked k (observe_all new_video os)) (omega arith)
        (observe_all-IsTracked os 0 new_video
          (record { counted = refl; baseline = inl (refl, refl); facts = (omega arith, refl) }))
