-- ===== src/TrackingSchedule/Tests.antt =====
-- Exact fractions in the place of floats, and small runs of the schedule.
use Prim.Native.String.{len}
use yobi_analytics.Prelude.{
  ℕ, ◌+◌, ◌*◌, ◌^◌, ◌<◌, ◌≡◌, refl, Bool, true, some, none, List, [], ◌∷◌, arith, inl, inr, leb,
  if◌then◌else◌, member,
}
use yobi_analytics.Prelude.Sort.{IsSorted, sorted}
use yobi_analytics.Prelude.TextOrder.{text_le}
use yobi_analytics.Prelude.Distinct.{IsDistinct}
use yobi_analytics.TrackingSchedule.{
  ActivityState, hot, warm, cold, Candidate, Floats, Tracked, is_due_today, select_due_video_ids,
  cycle_days_by_state, growth_per_day, is_hot, is_warm, classify_after_observation, growth_verdict,
}
use yobi_analytics.TrackingSchedule.Due.{is_due_today-once_per_cycle}
use yobi_analytics.TrackingSchedule.Selection.{select_due_video_ids-once_per_cycle}
use yobi_analytics.TrackingSchedule.Bootstrap.{
  Observation, IsTracked, new_video, observe, observe_all, observe_all-new_video,
}

-- A numerator and a denominator.
abbrev Fraction : Type 0
Fraction = ℕ × ℕ

abbrev fraction_ge : Fraction → Fraction → Bool
fraction_ge (a, b) (c, d) = leb (c * b) (a * d)

abbrev pub fractions : Floats
fractions = record {
  Float = Fraction;
  of_ℕ = λ n. (n, 1);
  decimal = λ m e. (m, 10 ^ e);
  divide = λ x y. (x.0 * y.1, x.1 * y.0);
  times = λ x y. (x.0 * y.0, x.1 * y.1);
  maximum = λ x y. if fraction_ge x y then x else y;
  at_least = fraction_ge;
}

abbrev video : ActivityState → Candidate
video state = record { video_id = "abcdefg"; published_on = some 739000; activity_state = state }

is_due_today-once_per_cycle_example :
    (i : ℕ) × (i < 15)
    × (is_due_today len (video cold) (739100 + i) ≡ true)
    × ((j : ℕ) → j < 15 → is_due_today len (video cold) (739100 + j) ≡ true → j ≡ i)
unfolding cycle_days_by_state
is_due_today-once_per_cycle_example =
    is_due_today-once_per_cycle len (video cold) 739000 739100 15 refl refl (omega arith)

abbrev candidates : List Candidate
candidates =
    record { video_id = "b"; published_on = some 739099; activity_state = cold }
    ∷ record { video_id = "c"; published_on = some 739000; activity_state = cold }
    ∷ record { video_id = "a"; published_on = none; activity_state = cold }
    ∷ []

select_two : select_due_video_ids len candidates 739100 ≡ "a" ∷ "b" ∷ []
unfolding select_due_video_ids is_due_today sorted text_le
select_two = refl

abbrev idle : Candidate
idle = record { video_id = "c"; published_on = some 739000; activity_state = cold }

select_due_video_ids-once_per_cycle_example :
    (i : ℕ) × (i < 15)
    × (member "c" (select_due_video_ids len candidates (739100 + i)) ≡ true)
    × ((j : ℕ)
        → j < 15
        → member "c" (select_due_video_ids len candidates (739100 + j)) ≡ true
        → j ≡ i)
    × ((as_of : ℕ)
        → IsSorted text_le (select_due_video_ids len candidates as_of)
          × IsDistinct (select_due_video_ids len candidates as_of))
unfolding cycle_days_by_state member
select_due_video_ids-once_per_cycle_example =
    select_due_video_ids-once_per_cycle len candidates idle 739000 739100 15
      (refl, (refl, (refl, tt))) (inr (inl refl)) refl refl (omega arith)

abbrev day : ℕ → ℕ
day n = 1787961600000000 + n * 86400000000

abbrev seen : ℕ → ℕ → Observation
seen views n = record { view_count = views; at = day n }

abbrev first_week : List Observation
first_week = seen 1000 0 ∷ seen 5000 1 ∷ seen 5001 2 ∷ seen 5002 3 ∷ []

observe_all-new_video_example : IsTracked 4 (observe_all fractions new_video first_week)
observe_all-new_video_example = observe_all-new_video fractions first_week

-- Strong growth makes the video Hot at its second snapshot, two quiet days make it Warm.
first_week_state : (observe_all fractions new_video first_week).activity_state ≡ warm
unfolding observe_all observe classify_after_observation growth_verdict growth_per_day is_hot
    is_warm
first_week_state = refl

abbrev hot_video : Tracked
hot_video = record {
  activity_state = hot;
  snapshot_count = 2;
  quiet_streak = 0;
  last_view_count = some 5000;
  last_checked_at = some (day 1);
}

abbrev quiet_days : List Observation
quiet_days = seen 5001 2 ∷ seen 5002 3 ∷ seen 5003 4 ∷ seen 5004 5 ∷ seen 5005 6 ∷ []
