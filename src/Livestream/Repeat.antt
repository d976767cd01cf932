-- ===== src/Livestream/Repeat.antt =====
-- `refresh_snapshot` delivered twice.
use yobi_analytics.Prelude.{
  ℕ, ◌+◌, ◌≤◌, ◌<◌, ◌≡◌, refl, String, Bool, true, false, Option, some, List, Dict, le→leb, lt→ltb,
  Bool-cases, inl, inr, subst,
}
use yobi_analytics.Livestream.{Probe, Entry, completion_min_interval}
use yobi_analytics.Livestream.Candidates.{VideoMaster}
use yobi_analytics.Livestream.Cycle.{
  Snapshot, Stored, Refreshed, refreshed, duplicate_invocation, not_obtained, skipped_cooldown,
  write_failed, Obtained, obtain_failed, display_cooldown, obtained, is_duplicate,
  snapshot_or_empty, persist, complete_cycle, refresh_snapshot,
}

module _ (master : VideoMaster) (channel_of : Option String → Option String)
    (probe : List String → Dict Probe × List String) where
  -- The snapshot says that it was refreshed at this moment.
  abbrev IsRefreshedAt : ℕ → Refreshed × Stored → Type 0
  IsRefreshedAt moment (refreshed _ _ _, s) =
      (snapshot_or_empty s.snapshot).refreshed_at ≡ some moment
  IsRefreshedAt moment (_, s) = Unit

  persist-IsRefreshedAt :
      (a b : Bool) (moment : ℕ) (ended : Dict Entry) (snapshot : Snapshot) (summary : Refreshed)
      (s : Stored)
      → snapshot.refreshed_at ≡ some moment
      → IsRefreshedAt moment (persist master channel_of probe a b ended snapshot summary s)
  persist-IsRefreshedAt false b moment ended snapshot summary s h = tt
  persist-IsRefreshedAt true false moment ended snapshot summary s h = tt
  persist-IsRefreshedAt true true moment ended snapshot (refreshed _ _ _) s h = h
  persist-IsRefreshedAt true true moment ended snapshot duplicate_invocation s h = tt
  persist-IsRefreshedAt true true moment ended snapshot not_obtained s h = tt
  persist-IsRefreshedAt true true moment ended snapshot skipped_cooldown s h = tt
  persist-IsRefreshedAt true true moment ended snapshot write_failed s h = tt

  refresh-IsRefreshedAt :
      (a b : Bool) (moment : ℕ) (streams : Obtained) (s : Stored)
      → IsRefreshedAt moment (refresh_snapshot master channel_of probe a b moment streams s)
  unfolding refresh_snapshot complete_cycle
  refresh-IsRefreshedAt a b moment obtain_failed s =
      elim (Bool-cases (is_duplicate (snapshot_or_empty s.snapshot).refreshed_at moment)) [
        | inl again ↦ rw again tt
        | inr new ↦ rw new tt
      ]
  refresh-IsRefreshedAt a b moment display_cooldown s =
      elim (Bool-cases (is_duplicate (snapshot_or_empty s.snapshot).refreshed_at moment)) [
        | inl again ↦ rw again tt
        | inr new ↦ rw new tt
      ]
  refresh-IsRefreshedAt a b moment (obtained xs) s =
      elim (Bool-cases (is_duplicate (snapshot_or_empty s.snapshot).refreshed_at moment)) [
        | inl again ↦ rw again tt
        | inr new ↦ rw new (persist-IsRefreshedAt a b moment _ _ _ s refl)
      ]

  -- After a cycle that finished, another delivery within 120 seconds does nothing, whatever streams
  -- it would have obtained.
  pub refresh_snapshot-again :
      (a b a' b' : Bool) (t t' : ℕ) (streams streams' : Obtained) (s s' : Stored) (stream_count : ℕ)
      (candidates confirmed : List String)
      → refresh_snapshot master channel_of probe a b t streams s
        ≡ (refreshed stream_count candidates confirmed, s')
      → t ≤ t'
      → t' < t + completion_min_interval
      → refresh_snapshot master channel_of probe a' b' t' streams' s' ≡ (duplicate_invocation, s')
  unfolding refresh_snapshot is_duplicate
  refresh_snapshot-again a b a' b' t t' streams streams' s s' n cs fs e after soon =
      let stored : (snapshot_or_empty s'.snapshot).refreshed_at ≡ some t =
        subst (IsRefreshedAt t) e (refresh-IsRefreshedAt a b t streams s) in
      rw (stored, le→leb t t' after, lt→ltb t' (t + completion_min_interval) soon) refl
