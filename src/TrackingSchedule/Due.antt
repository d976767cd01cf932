-- ===== src/TrackingSchedule/Due.antt =====
-- How often `is_due_today` holds.
use yobi_analytics.Prelude.{
  ℕ, ◌+◌, ◌-◌, ◌%◌, ◌<◌, ◌≡◌, refl, String, true, Option, some, none, arith, ◌==◌, ==_iff, ◌∙◌, sym,
  subst,
}
use mathlib.Core.Option.{some-injective}
use yobi_analytics.TrackingSchedule.{
  ActivityState, unknown, hot, warm, cold, unrecognized, cycle_days_by_state, Candidate,
  recent_max_age_days, is_due_today, is_due_by_cycle, rotation_slot,
}

-- The day of a cycle that starts at `start` on which a slot comes up.
turn : ℕ → ℕ → ℕ → ℕ
turn slot cycle start = (slot + (cycle - start % cycle)) % cycle

module _ (slot start : ℕ) where
  turn_two :
      (turn (slot % 2) 2 start < 2)
      × (slot % 2 ≡ (start + turn (slot % 2) 2 start) % 2)
      × ((j : ℕ) → j < 2 → slot % 2 ≡ (start + j) % 2 → j ≡ turn (slot % 2) 2 start)
  unfolding turn
  turn_two = (omega arith, omega arith, λ j h e. omega arith)

  turn_three :
      (turn (slot % 3) 3 start < 3)
      × (slot % 3 ≡ (start + turn (slot % 3) 3 start) % 3)
      × ((j : ℕ) → j < 3 → slot % 3 ≡ (start + j) % 3 → j ≡ turn (slot % 3) 3 start)
  unfolding turn
  turn_three = (omega arith, omega arith, λ j h e. omega arith)

  turn_fifteen :
      (turn (slot % 15) 15 start < 15)
      × (slot % 15 ≡ (start + turn (slot % 15) 15 start) % 15)
      × ((j : ℕ) → j < 15 → slot % 15 ≡ (start + j) % 15 → j ≡ turn (slot % 15) 15 start)
  unfolding turn
  turn_fifteen = (omega arith, omega arith, λ j h e. omega arith)

-- In its cycle a video is due on one day out of `cycle`.
abbrev pub OncePerCycle : (String → ℕ) → String → ActivityState → ℕ → ℕ → Type 0
OncePerCycle digest video_id state cycle start =
    (i : ℕ) × (i < cycle)
    × (is_due_by_cycle digest video_id state (start + i) ≡ true)
    × ((j : ℕ) → j < cycle → is_due_by_cycle digest video_id state (start + j) ≡ true → j ≡ i)

-- The three facts of a turn, for any cycle.
abbrev IsTurn : ℕ → ℕ → ℕ → ℕ → Type 0
IsTurn slot cycle start i =
    (i < cycle)
    × (slot % cycle ≡ (start + i) % cycle)
    × ((j : ℕ) → j < cycle → slot % cycle ≡ (start + j) % cycle → j ≡ i)

once_of_turn :
    (digest : String → ℕ) (video_id : String) (state : ActivityState) (start cycle i : ℕ)
    → ((d : ℕ) → is_due_by_cycle digest video_id state d ≡ (digest video_id % cycle == d % cycle))
    → IsTurn (digest video_id) cycle start i
    → OncePerCycle digest video_id state cycle start
once_of_turn digest v state start cycle i rule (below, comes, only) = (
  i,
  below,
  rule (start + i) ∙ (==_iff _ _).1 comes,
  λ j h due. only j h ((==_iff _ _).0 (sym (rule (start + j)) ∙ due)),
)

is_due_by_cycle-once :
    (digest : String → ℕ) (video_id : String) (state : ActivityState) (start cycle : ℕ)
    → cycle_days_by_state state ≡ some cycle
    → OncePerCycle digest video_id state cycle start
unfolding cycle_days_by_state is_due_by_cycle rotation_slot
is_due_by_cycle-once digest v unknown start cycle e =
    subst (λ n. OncePerCycle digest v unknown n start) (some-injective _ _ e)
      (once_of_turn digest v unknown start 2 _ (λ d. refl) (turn_two (digest v) start))
is_due_by_cycle-once digest v warm start cycle e =
    subst (λ n. OncePerCycle digest v warm n start) (some-injective _ _ e)
      (once_of_turn digest v warm start 3 _ (λ d. refl) (turn_three (digest v) start))
is_due_by_cycle-once digest v cold start cycle e =
    subst (λ n. OncePerCycle digest v cold n start) (some-injective _ _ e)
      (once_of_turn digest v cold start 15 _ (λ d. refl) (turn_fifteen (digest v) start))
is_due_by_cycle-once digest v hot start cycle e = cc
is_due_by_cycle-once digest v (unrecognized t) start cycle e = cc

past_recent :
    (digest : String → ℕ) (c : Candidate) (published as_of : ℕ)
    → c.published_on ≡ some published
    → published + recent_max_age_days < as_of
    → is_due_today digest c as_of ≡ is_due_by_cycle digest c.video_id c.activity_state as_of
unfolding is_due_today
past_recent digest c published as_of e h = ground arith

-- From the eighth day on, a video in a state with a cycle is due on exactly one day of every
-- `cycle` days in a row, wherever one starts to count and whatever its digest is.
pub is_due_today-once_per_cycle :
    (digest : String → ℕ) (c : Candidate) (published start cycle : ℕ)
    → c.published_on ≡ some published
    → cycle_days_by_state c.activity_state ≡ some cycle
    → published + recent_max_age_days < start
    → (i : ℕ) × (i < cycle)
      × (is_due_today digest c (start + i) ≡ true)
      × ((j : ℕ) → j < cycle → is_due_today digest c (start + j) ≡ true → j ≡ i)
is_due_today-once_per_cycle digest c published start cycle on by_state old =
    let (i, below, due, only) =
      is_due_by_cycle-once digest c.video_id c.activity_state start cycle by_state in
    let past : (k : ℕ)
        → is_due_today digest c (start + k)
          ≡ is_due_by_cycle digest c.video_id c.activity_state (start + k) =
      λ k. past_recent digest c published (start + k) on (omega arith) in
    (i, below, past i ∙ due, λ j h due_j. only j h (sym (past j) ∙ due_j))

-- A video is due every day in its first week, while it is hot, and where its age or its state
-- cannot be told.
pub is_due_today_always :
    (digest : String → ℕ) (c : Candidate) (as_of : ℕ)
    → ((published : ℕ)
        → c.published_on ≡ some published
        → published + recent_max_age_days < as_of
        → cycle_days_by_state c.activity_state ≡ none)
    → is_due_today digest c as_of ≡ true
unfolding is_due_today is_due_by_cycle
is_due_today_always digest c as_of h = go c.published_on refl
  where
    go : (on : Option ℕ) → c.published_on ≡ on → is_due_today digest c as_of ≡ true
    go none e = ground arith
    go (some published) e = ground (arith, h published e)
