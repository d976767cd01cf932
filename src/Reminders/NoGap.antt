-- ===== src/Reminders/NoGap.antt =====
-- The reminder moments that the runs of src/notifications/notification_dispatcher.py serve.
use yobi_analytics.Prelude.{
  ℕ, zero, suc, ◌+◌, ◌-◌, ◌*◌, ◌≤◌, ◌<◌, ◌≡◌, ◌∙◌, ◌⊎◌, inl, inr, Bool, true, false, ◌||◌, Option,
  none, some, List, [], ◌∷◌, ◌++◌, leb, exists, arith, Bool-cases, leb→le, leb-false→lt,
}
use yobi_analytics.Reminders.{is_moment_due}
use yobi_analytics.Reminders.Instants.{
  reminder_window_ms, max_recovery_lookback_ms, recovery_jitter_ms, last_ms_of, fill_instants,
  instants_since, anchor_ms_of, evaluation_instants,
}

-- The moment `offset` before the start is in the window of one of the instants.
abbrev pub is_served : (start offset : ℕ) → List ℕ → Bool
is_served start offset instants =
    exists (λ t. is_moment_due start offset t reminder_window_ms) instants

is_served-append :
    (start offset : ℕ) (xs : List ℕ) (t : ℕ)
    → is_served start offset (xs ++ (t ∷ []))
      ≡ (is_served start offset xs || is_moment_due start offset t reminder_window_ms)
is_served-append start offset [] t = ground arith
is_served-append start offset (x ∷ xs) t = ground (arith, is_served-append start offset xs t)

fill-serves :
    (fuel last limit candidate start offset : ℕ)
    → last < candidate
    → last < limit
    → limit + reminder_window_ms ≤ candidate + fuel * reminder_window_ms
    → candidate + offset < start + reminder_window_ms
    → start ≤ limit + offset
    → is_served start offset (fill_instants fuel last limit candidate) ≡ true
unfolding fill_instants is_moment_due
fill-serves zero last limit candidate start offset a b enough low high = absurd (omega arith)
fill-serves (suc fuel) last limit candidate start offset a b enough low high =
    elim (Bool-cases (leb limit candidate)) [
      | inl e ↦ ground arith
      | inr e ↦ elim (Bool-cases (leb start (candidate + offset))) [
        | inl g ↦ ground arith
        | inr g ↦
            let rest =
              fill-serves fuel last limit (candidate + reminder_window_ms) start offset
                (omega arith) b (ground arith) (ground arith) high in
            ground (arith, rest)
      ]
    ]

last_ms-recent :
    (last_served : Option ℕ) (anchor_ms : ℕ)
    → anchor_ms ≤ last_ms_of last_served anchor_ms + max_recovery_lookback_ms
unfolding last_ms_of
last_ms-recent last_served anchor_ms = ground arith

or_left : (a b : Bool) → a ≡ true → (a || b) ≡ true
or_left a b h = ground arith

or_right : (a b : Bool) → b ≡ true → (a || b) ≡ true
or_right a b h = ground arith

not_near :
    (last anchor : ℕ)
    → last + reminder_window_ms + recovery_jitter_ms < anchor
    → leb anchor (last + reminder_window_ms + recovery_jitter_ms) ≡ false
not_near last anchor far = ground arith

served_last :
    (anchor start offset : ℕ)
    → anchor + offset < start + reminder_window_ms
    → start ≤ anchor + offset
    → is_moment_due start offset anchor reminder_window_ms ≡ true
unfolding is_moment_due
served_last anchor start offset low high = ground arith

far-serves :
    (last anchor start offset : ℕ)
    → anchor ≤ last + max_recovery_lookback_ms
    → last + reminder_window_ms + recovery_jitter_ms < anchor
    → last + offset < start
    → start ≤ anchor + offset
    → (is_served start offset
          (fill_instants 10 last (anchor - reminder_window_ms) (last + reminder_window_ms))
        || is_moment_due start offset anchor reminder_window_ms)
      ≡ true
far-serves last anchor start offset recent far low high =
    elim (Bool-cases (leb start ((anchor - reminder_window_ms) + offset))) [
      | inl e ↦ or_left _ _ (
          fill-serves 10 last (anchor - reminder_window_ms) (last + reminder_window_ms) start offset
            (omega arith) (omega arith) (omega arith) (omega arith) (leb→le _ _ e))
      | inr e ↦
          let above = leb-false→lt _ _ e in
          or_right (is_served start offset _) _ (served_last anchor start offset (omega arith) high)
    ]

since-serves :
    (last anchor start offset : ℕ)
    → anchor ≤ last + max_recovery_lookback_ms
    → (anchor ≤ last + reminder_window_ms)
      ⊎ (last + reminder_window_ms + recovery_jitter_ms < anchor)
    → last + offset < start
    → start ≤ anchor + offset
    → is_served start offset (instants_since last anchor) ≡ true
unfolding instants_since is_moment_due
since-serves last anchor start offset recent (inl near) low high = ground arith
since-serves last anchor start offset recent (inr far) low high = rw (not_near last anchor far) (
    is_served-append start offset _ anchor
    ∙ far-serves last anchor start offset recent far low high)

-- The moment is later than the instant served last, or in a cold container less than two minutes old.
abbrev pub IsUnserved : (last_served : Option ℕ) → (anchor start offset : ℕ) → Type 0
IsUnserved none anchor start offset = anchor + offset < start + 120000
IsUnserved (some last) anchor start offset = last + offset < start

-- The run is at most 60 seconds after the instant served last, or more than 90; a cold container's clock
-- has passed its first two minutes.
abbrev pub IsSpaced : (last_served : Option ℕ) → (anchor : ℕ) → Type 0
IsSpaced none anchor = 120000 ≤ anchor
IsSpaced (some last) anchor = (anchor ≤ last + 60000) ⊎ (last + 90000 < anchor)

spaced :
    (last_served : Option ℕ) (anchor : ℕ)
    → IsSpaced last_served anchor
    → (anchor ≤ last_ms_of last_served anchor + reminder_window_ms)
      ⊎ (last_ms_of last_served anchor + reminder_window_ms + recovery_jitter_ms < anchor)
unfolding last_ms_of
spaced none anchor h = inr (ground arith)
spaced (some last) anchor (inl near) = inl (ground arith)
spaced (some last) anchor (inr far) = elim (Bool-cases (leb anchor max_recovery_lookback_ms)) [
  | inl early ↦ inr (ground arith)
  | inr late ↦ inr (ground arith)
]

unserved :
    (last_served : Option ℕ) (anchor start offset : ℕ)
    → IsUnserved last_served anchor start offset
    → IsSpaced last_served anchor
    → anchor + offset < start + 600000
    → last_ms_of last_served anchor + offset < start
unfolding last_ms_of
unserved none anchor start offset h spaced recent = ground arith
unserved (some last) anchor start offset h spaced recent = ground arith

-- A reminder moment up to the run's instant and less than ten minutes before it, later than the
-- instant that the container served last, is due at one of the instants that the run serves, if the
-- run is at most 60 seconds after that instant or more than 90. In a cold container whose clock is
-- past the epoch's first two minutes it is so for the moments of the last two minutes.
pub moment_is_served :
    (last_served scheduled : Option ℕ) (now start offset : ℕ)
    → IsUnserved last_served (anchor_ms_of scheduled now) start offset
    → IsSpaced last_served (anchor_ms_of scheduled now)
    → anchor_ms_of scheduled now + offset < start + 600000
    → start ≤ anchor_ms_of scheduled now + offset
    → is_served start offset (evaluation_instants last_served scheduled now) ≡ true
unfolding evaluation_instants
moment_is_served last_served scheduled now start offset after gap recent high =
    let anchor = anchor_ms_of scheduled now in
    since-serves (last_ms_of last_served anchor) anchor start offset
      (last_ms-recent last_served anchor) (spaced last_served anchor gap)
      (unserved last_served anchor start offset after gap recent) high
