-- ===== src/Livestream/Serving.antt =====
-- What the display job leaves for `read_serving_snapshot`.
use yobi_analytics.Prelude.{
  ℕ, ◌+◌, ◌*◌, ◌≤◌, ◌≡◌, refl, ◌⊎◌, inl, inr, String, Bool, true, false, not, ◌||◌, Option, none,
  some, List, leb, ltb, str_eq, eq_iff, Bool-cases, leb→le, arith, ap,
}
use yobi_analytics.Livestream.{second}
use yobi_analytics.Livestream.Cycle.{Stream, Obtained, obtained}
use yobi_analytics.Livestream.Display.{
  streams_for_completion, completion_streams, Display, DisplaySnapshot, read_display, usable_of,
  with_beat, display_state, served, nothing_persisted, stale_error, freshest, serve_freshest,
  serve_display, read_serving_snapshot, display_cooldown_seconds, display_cooldown_cap_seconds,
  max_snapshot_age_seconds, display_fresh_seconds, is_in_cooldown, is_before, failed_heartbeat,
  listed, fetch_failed, skipped_in_cooldown, display_refreshed, display_write_failed,
  stream_signature, is_changed, is_content_old, must_write, store_streams, run_display,
  refresh_display_snapshot, snapshot_of, beat_of,
}

served-injective : (xs ys : List Stream) → served xs ≡ served ys → xs ≡ ys
served-injective xs ys h = cc

nothing-ne-served : (xs : List Stream) → nothing_persisted ≡ served xs → ⊥
nothing-ne-served xs h = cc

stale-ne-served : (xs : List Stream) → stale_error ≡ served xs → ⊥
stale-ne-served xs h = cc

-- The streams stand in a snapshot that is at most 30 minutes old.
abbrev pub IsRecent : ℕ → List Stream → Option (List Stream × ℕ) → Type 0
IsRecent moment xs usable =
    (at : ℕ) × (usable ≡ some (xs, at)) × (moment ≤ at + max_snapshot_age_seconds * second)

serve_freshest-IsRecent :
    (moment : ℕ) (xs : List Stream) (usable : Option (List Stream × ℕ))
    → serve_freshest moment usable ≡ served xs
    → IsRecent moment xs usable
unfolding serve_freshest
serve_freshest-IsRecent moment xs none h = absurd (nothing-ne-served xs h)
serve_freshest-IsRecent moment xs (some (ys, at)) h =
    elim (Bool-cases (leb moment (at + max_snapshot_age_seconds * second))) [
      | inl recent ↦ (
        at,
        ap (λ zs. some (zs, at)) (served-injective ys xs (rw recent at h)),
        leb→le _ _ recent,
      )
      | inr old ↦ absurd (stale-ne-served xs (rw old at h))
    ]

freshest-cases : (d c : Option (List Stream × ℕ)) → (freshest d c ≡ d) ⊎ (freshest d c ≡ c)
unfolding freshest
freshest-cases none c = inr refl
freshest-cases (some d) none = inl refl
freshest-cases (some d) (some c) = elim (Bool-cases (ltb d.1 c.1)) [
  | inl older ↦ inr (rw older refl)
  | inr newer ↦ inl (rw newer refl)
]

from_freshest :
    (moment : ℕ) (xs : List Stream) (d c : Option (List Stream × ℕ))
    → serve_freshest moment (freshest d c) ≡ served xs
    → IsRecent moment xs d ⊎ IsRecent moment xs c
from_freshest moment xs d c h = elim (freshest-cases d c) [
  | inl e ↦ inl (serve_freshest-IsRecent moment xs d (rw e at h))
  | inr e ↦ inr (serve_freshest-IsRecent moment xs c (rw e at h))
]

serve_display-IsRecent :
    (moment : ℕ) (xs : List Stream) (d c : Option (List Stream × ℕ))
    → serve_display moment d c ≡ served xs
    → IsRecent moment xs d ⊎ IsRecent moment xs c
unfolding serve_display
serve_display-IsRecent moment xs none c h = inr (serve_freshest-IsRecent moment xs c h)
serve_display-IsRecent moment xs (some (ys, at)) c h =
    elim (Bool-cases (leb moment (at + display_fresh_seconds * second))) [
      | inl fresh ↦
          let within : moment ≤ at + display_fresh_seconds * second = leb→le _ _ fresh in
          inl (at, ap (λ zs. some (zs, at)) (served-injective ys xs (rw fresh at h)), omega arith)
      | inr old ↦ from_freshest moment xs (some (ys, at)) c (rw old at h)
    ]

-- What is served stands in the display snapshot or in the completion job's copy, and that one was
-- refreshed at most 30 minutes ago.
pub read_serving_snapshot-IsRecent :
    (moment : ℕ) (xs : List Stream) (completion : Option (List Stream × ℕ)) (d : Display)
    → read_serving_snapshot moment completion d ≡ served xs
    → IsRecent moment xs (read_display d) ⊎ IsRecent moment xs completion
unfolding read_serving_snapshot
read_serving_snapshot-IsRecent moment xs completion d h =
    serve_display-IsRecent moment xs (read_display d) completion h

-- A cooldown is shorter than the interval of the job.
display_cooldown_seconds-le :
    (failures : ℕ) (r : Bool) → display_cooldown_seconds failures r ≤ display_cooldown_cap_seconds
unfolding display_cooldown_seconds
display_cooldown_seconds-le failures r = ground arith

is_before-later :
    (t t' : ℕ) (o : Option ℕ) → is_before t o ≡ false → t ≤ t' → is_before t' o ≡ false
is_before-later t t' none h after = refl
is_before-later t t' (some until) h after = ground arith

module _ (dumps : List Stream → String) where
  run-read_serving_snapshot :
      (a b : Bool) (t moment : ℕ) (r : Bool) (completion : Option (List Stream × ℕ)) (d : Display)
      → read_serving_snapshot moment completion (run_display dumps a b t (fetch_failed r) d).1
        ≡ read_serving_snapshot moment completion d
  unfolding run_display read_serving_snapshot read_display failed_heartbeat
  run-read_serving_snapshot a true t moment r completion d = refl
  run-read_serving_snapshot a false t moment r completion d = refl

  -- A refresh that fails to fetch changes nothing of what is served, at any time.
  pub refresh-read_serving_snapshot :
      (a b : Bool) (t moment : ℕ) (r : Bool) (completion : Option (List Stream × ℕ)) (d : Display)
      → read_serving_snapshot moment completion
          (refresh_display_snapshot dumps a b t (fetch_failed r) d).1
        ≡ read_serving_snapshot moment completion d
  unfolding refresh_display_snapshot
  refresh-read_serving_snapshot a b t moment r completion d =
      elim (Bool-cases (is_in_cooldown t d)) [
        | inl cooling ↦ rw cooling refl
        | inr free ↦ rw free (run-read_serving_snapshot a b t moment r completion d)
      ]

  run-is_in_cooldown :
      (a b : Bool) (t t' : ℕ) (r : Bool) (d : Display)
      → is_in_cooldown t d ≡ false
      → t + display_cooldown_cap_seconds * second ≤ t'
      → is_in_cooldown t' (run_display dumps a b t (fetch_failed r) d).1 ≡ false
  unfolding run_display is_in_cooldown failed_heartbeat display_state
  run-is_in_cooldown a false t t' r d free after = is_before-later t t' _ free (omega arith)
  run-is_in_cooldown a true t t' r d free after =
      let c : ℕ = display_cooldown_seconds ((display_state d).consecutive_failures + 1) r in
      let bound : c ≤ display_cooldown_cap_seconds = display_cooldown_seconds-le _ r in
      elim (Bool-cases (ltb 0 c)) [
        | inl some_time ↦ rw some_time (ground arith)
        | inr no_time ↦ rw no_time refl
      ]

  -- After a fetch that failed outside any cooldown, the next run, which comes 600 seconds later or up
  -- to 60 seconds before that, or at any time after, is in no cooldown and so is not skipped for this
  -- failure, however many failures came before it.
  pub refresh-is_in_cooldown :
      (a b : Bool) (t t' : ℕ) (r : Bool) (d : Display)
      → is_in_cooldown t d ≡ false
      → t + 600 * second ≤ t' + 60 * second
      → is_in_cooldown t' (refresh_display_snapshot dumps a b t (fetch_failed r) d).1 ≡ false
  unfolding refresh_display_snapshot
  refresh-is_in_cooldown a b t t' r d free after =
      rw free (run-is_in_cooldown a b t t' r d free (omega arith))

  failed-ne-refreshed : (n m : ℕ) (w : Bool) → display_write_failed n ≡ display_refreshed m w → ⊥
  failed-ne-refreshed n m w h = cc

  -- The streams served have the signature of those that were fetched, and the completion job takes
  -- them without a fetch of its own.
  abbrev pub Shows : ℕ → Option (List Stream × ℕ) → List Stream → Display → Type 0
  Shows moment completion xs d =
      (ys : List Stream) × (read_serving_snapshot moment completion d ≡ served ys)
      × ((fetch : Obtained) → streams_for_completion fetch moment d ≡ obtained ys)
      × (stream_signature dumps ys ≡ stream_signature dumps xs)

  new-Shows :
      (t moment : ℕ) (xs : List Stream) (completion : Option (List Stream × ℕ))
      → moment ≤ t + display_fresh_seconds * second
      → Shows moment completion xs
          (record { snapshot = some (snapshot_of dumps t xs); heartbeat = some (beat_of dumps t) })
  unfolding read_serving_snapshot read_display serve_display with_beat usable_of
      streams_for_completion is_in_cooldown display_state completion_streams
  new-Shows t moment xs completion soon = (xs, ground arith, (λ fetch. ground arith), refl)

  true-ne-false : true ≡ false → ⊥
  true-ne-false h = cc

  is_unchanged : (x y : String) (c : Bool) → (not (str_eq x y) || c) ≡ false → y ≡ x
  is_unchanged x y c h = ground (arith, eq_iff x y)

  is_young : (x c : Bool) → (x || c) ≡ false → c ≡ false
  is_young x c h = ground arith

  -- The fields of an unchanged snapshot, shown with a heartbeat of this run.
  kept-shown :
      (t moment : ℕ) (xs : List Stream) (so : Option (List Stream)) (ro : Option ℕ)
      (completion : Option (List Stream × ℕ))
      → (is_changed dumps xs so || is_content_old t ro) ≡ false
      → moment ≤ t + display_fresh_seconds * second
      → (ys : List Stream) × (serve_display moment (with_beat (some t) (usable_of so ro)) completion
          ≡ served ys)
        × ((fetch : Obtained)
            → completion_streams fetch moment (with_beat (some t) (usable_of so ro)) ≡ obtained ys)
        × (stream_signature dumps ys ≡ stream_signature dumps xs)
  unfolding serve_display with_beat usable_of completion_streams
  kept-shown t moment xs none ro completion unchanged soon = absurd (true-ne-false unchanged)
  kept-shown t moment xs (some old) none completion unchanged soon =
      absurd (true-ne-false (is_young _ true unchanged))
  kept-shown t moment xs (some old) (some r) completion unchanged soon =
      (old, ground arith, (λ fetch. ground arith), is_unchanged _ _ _ unchanged)

  kept-Shows :
      (t moment : ℕ) (xs : List Stream) (o : Option DisplaySnapshot)
      (completion : Option (List Stream × ℕ))
      → must_write dumps t xs o ≡ false
      → moment ≤ t + display_fresh_seconds * second
      → Shows moment completion xs (record { snapshot = o; heartbeat = some (beat_of dumps t) })
  unfolding read_serving_snapshot read_display streams_for_completion is_in_cooldown display_state
  kept-Shows t moment xs none completion unchanged soon = absurd (true-ne-false unchanged)
  kept-Shows t moment xs (some s) completion unchanged soon =
      kept-shown t moment xs s.streams s.refreshed_at completion unchanged soon

  store-Shows :
      (a b must : Bool) (t moment n : ℕ) (w : Bool) (xs : List Stream)
      (completion : Option (List Stream × ℕ)) (d : Display)
      → must_write dumps t xs d.snapshot ≡ must
      → (store_streams dumps a b must t xs d).0 ≡ display_refreshed n w
      → moment ≤ t + display_fresh_seconds * second
      → Shows moment completion xs (store_streams dumps a b must t xs d).1
  unfolding store_streams
  store-Shows false b true t moment n w xs completion d m h soon =
      absurd (failed-ne-refreshed _ n w h)
  store-Shows true false true t moment n w xs completion d m h soon =
      absurd (failed-ne-refreshed _ n w h)
  store-Shows true true true t moment n w xs completion d m h soon =
      new-Shows t moment xs completion soon
  store-Shows a false false t moment n w xs completion d m h soon =
      absurd (failed-ne-refreshed _ n w h)
  store-Shows a true false t moment n w xs completion d m h soon =
      kept-Shows t moment xs d.snapshot completion m soon

  skipped-ne-refreshed : (n : ℕ) (w : Bool) → skipped_in_cooldown ≡ display_refreshed n w → ⊥
  skipped-ne-refreshed n w h = cc

  -- After a refresh that succeeded, what is served for the next 21 minutes has the signature of the
  -- streams that it fetched, whether or not it wrote the large record, and the completion job takes
  -- the same streams without a fetch of its own.
  pub refresh-Shows :
      (a b : Bool) (t moment n : ℕ) (w : Bool) (xs : List Stream)
      (completion : Option (List Stream × ℕ)) (d : Display)
      → (refresh_display_snapshot dumps a b t (listed xs) d).0 ≡ display_refreshed n w
      → moment ≤ t + display_fresh_seconds * second
      → Shows moment completion xs (refresh_display_snapshot dumps a b t (listed xs) d).1
  unfolding refresh_display_snapshot run_display
  refresh-Shows a b t moment n w xs completion d h soon = elim (Bool-cases (is_in_cooldown t d)) [
    | inl cooling ↦ absurd (skipped-ne-refreshed n w (rw cooling at h))
    | inr free ↦ rw free (
        store-Shows a b (must_write dumps t xs d.snapshot) t moment n w xs completion d refl
          (rw free at h) soon)
  ]
