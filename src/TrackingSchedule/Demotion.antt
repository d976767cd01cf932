-- ===== src/TrackingSchedule/Demotion.antt =====
-- How many quiet observations in a row it takes to fall from Hot to Warm and on to Cold.
use yobi_analytics.Prelude.{
  ℕ, zero, suc, ◌+◌, ◌≡◌, refl, false, some, List, [], ◌∷◌, arith, length, ap, ◌∙◌,
}
use yobi_analytics.TrackingSchedule.{
  ActivityState, hot, warm, cold, Floats, Tracked, growth_verdict, classify_after_observation,
  classify_from, classify_growth, growth_per_day, is_hot, is_warm,
}
use yobi_analytics.TrackingSchedule.Bootstrap.{Observation, observe, observe_all}

-- Where a video stands that was Hot with no quiet observation, `n` quiet ones later.
abbrev pub tier_after : ℕ → ActivityState
tier_after zero = hot
tier_after (suc zero) = hot
tier_after (suc (suc zero)) = warm
tier_after (suc (suc (suc zero))) = warm
tier_after (suc (suc (suc (suc zero)))) = warm
tier_after (suc (suc (suc (suc (suc n))))) = cold

abbrev pub streak_after : ℕ → ℕ
streak_after zero = 0
streak_after (suc zero) = 1
streak_after (suc (suc zero)) = 0
streak_after (suc (suc (suc zero))) = 1
streak_after (suc (suc (suc (suc zero)))) = 2
streak_after (suc (suc (suc (suc (suc n))))) = n

-- One more quiet observation.
quiet_step :
    (n count : ℕ)
    → ((growth_verdict false false (tier_after n) count (streak_after n)).state
        ≡ tier_after (suc n))
      × ((growth_verdict false false (tier_after n) count (streak_after n)).streak
          ≡ streak_after (suc n))
unfolding growth_verdict
quiet_step zero count = (refl, refl)
quiet_step (suc zero) count = (refl, refl)
quiet_step (suc (suc zero)) count = (refl, refl)
quiet_step (suc (suc (suc zero))) count = (refl, refl)
quiet_step (suc (suc (suc (suc zero)))) count = (refl, refl)
quiet_step (suc (suc (suc (suc (suc n))))) count = (refl, omega arith)

module _ (fl : Floats) where
  -- Neither threshold is reached by the growth since the observation before.
  abbrev pub IsQuiet : ℕ → ℕ → Observation → Type 0
  IsQuiet views checked o =
      let (percent, avg) = growth_per_day fl views o.view_count checked o.at in
      (is_hot fl percent avg ≡ false) × (is_warm fl percent avg ≡ false)

  abbrev pub IsQuietRun : ℕ → ℕ → List Observation → Type 0
  IsQuietRun views checked [] = Unit
  IsQuietRun views checked (o ∷ os) = IsQuiet views checked o × IsQuietRun o.view_count o.at os

  -- `n` quiet observations after a Hot one.
  abbrev Fallen : ℕ → ℕ → ℕ → Tracked → Type 0
  Fallen n views checked t =
      (t.activity_state ≡ tier_after n)
      × (t.quiet_streak ≡ streak_after n)
      × (t.last_view_count ≡ some views)
      × (t.last_checked_at ≡ some checked)

  observe-Fallen :
      (n views checked : ℕ) (t : Tracked) (o : Observation)
      → Fallen n views checked t
      → IsQuiet views checked o
      → Fallen (suc n) o.view_count o.at (observe fl t o)
  unfolding observe classify_after_observation classify_from classify_growth
  observe-Fallen n views checked t o (tier, streak, ev, ea) (cool, calm) =
      rw (ev, ea, cool, calm, tier, streak)
        (
          (quiet_step n (t.snapshot_count + 1)).0,
          (quiet_step n (t.snapshot_count + 1)).1,
          refl,
          refl,
        )

  observe_all-Fallen :
      (os : List Observation) (n views checked : ℕ) (t : Tracked)
      → Fallen n views checked t
      → IsQuietRun views checked os
      → (observe_all fl t os).activity_state ≡ tier_after (n + length os)
  unfolding observe_all
  observe_all-Fallen [] n views checked t f q = f.0 ∙ ap tier_after (omega arith)
  observe_all-Fallen (o ∷ os) n views checked t f q =
      observe_all-Fallen os (suc n) o.view_count o.at (observe fl t o)
        (observe-Fallen n views checked t o f q.0) q.1
      ∙ ap tier_after (omega arith)

  -- A Hot video with no quiet streak stays Hot for one quiet observation in a row, is Warm after
  -- two to four of them and Cold from the fifth on.
  pub observe_all-quiet_run :
      (views checked : ℕ) (t : Tracked) (os : List Observation)
      → t.activity_state ≡ hot
      → t.quiet_streak ≡ 0
      → t.last_view_count ≡ some views
      → t.last_checked_at ≡ some checked
      → IsQuietRun views checked os
      → (observe_all fl t os).activity_state ≡ tier_after (length os)
  observe_all-quiet_run views checked t os tier streak ev ea q =
      observe_all-Fallen os 0 views checked t (tier, streak, ev, ea) q ∙ ap tier_after (omega arith)
