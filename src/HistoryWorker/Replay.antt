-- ===== src/HistoryWorker/Replay.antt =====
-- `_build_scheduler_updates` on rows that were applied before.
use yobi_analytics.Prelude.{
  ℕ, ◌≡◌, refl, sym, ◌∙◌, inl, inr, String, true, false, Option, none, some, List, [], ◌∷◌, arith,
  All, lookup, insert, lookup-insert, str_eq, eq_iff, Bool-cases, Option-cases, subst, le→leb,
}
use yobi_analytics.TrackingSchedule.{Floats}
use yobi_analytics.HistoryWorker.Records.{HistoryRow, Video, Master, upsert_videos}
use yobi_analytics.HistoryWorker.Updates.{
  is_applied, update_video, add_update, build_scheduler_updates,
}

module _ (fl : Floats) where
  -- Every video is stored under its own id.
  abbrev pub IsKeyed : Master fl → Type 0
  IsKeyed master = (k : String) (v : Video fl) → lookup k master ≡ some v → v.video_id ≡ k

  -- The video, if there is one, already reflects an observation of `at`.
  abbrev pub IsCaught : ℕ → Option (Video fl) → Type 0
  IsCaught at none = Unit
  IsCaught at (some v) = is_applied v.tracked.last_checked_at at ≡ true

  abbrev CheckedAt : ℕ → Video fl → Type 0
  CheckedAt at v = v.tracked.last_checked_at ≡ some at

  CheckedAt-IsCaught : (at : ℕ) (v : Video fl) → CheckedAt at v → IsCaught at (some v)
  CheckedAt-IsCaught at v e = rw e (le→leb at at (omega arith))

  update_video-CheckedAt :
      (v : Video fl) (row : HistoryRow) → CheckedAt row.observed_at (update_video fl v row)
  unfolding update_video
  update_video-CheckedAt v row = refl

  video_id-update_video :
      (v : Video fl) (row : HistoryRow) → (update_video fl v row).video_id ≡ v.video_id
  unfolding update_video
  video_id-update_video v row = refl

  insert-IsCaught :
      (at : ℕ) (k : String) (v : Video fl) (e : Master fl)
      → CheckedAt at v
      → IsCaught at (lookup k e)
      → IsCaught at (lookup k (insert v.video_id v e))
  insert-IsCaught at k v e c h = rw lookup-insert (elim (Bool-cases (str_eq v.video_id k)) [
    | inl same ↦ rw same (CheckedAt-IsCaught at v c)
    | inr other ↦ rw other h
  ])

  -- Later writes keep a key caught.
  upsert-IsCaught :
      (at : ℕ) (k : String) (vs : List (Video fl)) (e : Master fl)
      → All (CheckedAt at) vs
      → IsCaught at (lookup k e)
      → IsCaught at (lookup k (upsert_videos fl vs e))
  unfolding upsert_videos
  upsert-IsCaught at k [] e all h = h
  upsert-IsCaught at k (v ∷ vs) e all h =
      upsert-IsCaught at k vs (insert v.video_id v e) all.1 (insert-IsCaught at k v e all.0 h)

  abbrev pub ObservedAt : ℕ → HistoryRow → Type 0
  ObservedAt at row = row.observed_at ≡ at

  add_update-CheckedAt :
      (at : ℕ) (found : Option (Video fl)) (row : HistoryRow) (updates : List (Video fl))
      → ObservedAt at row
      → All (CheckedAt at) updates
      → All (CheckedAt at) (add_update fl found row updates)
  unfolding add_update
  add_update-CheckedAt at none row updates o h = h
  add_update-CheckedAt at (some v) row updates o h =
      elim (Bool-cases (is_applied v.tracked.last_checked_at row.observed_at)) [
        | inl e ↦ rw e h
        | inr e ↦
            rw e
              (subst (λ k. CheckedAt k (update_video fl v row)) o (update_video-CheckedAt v row), h)
      ]

  build-CheckedAt :
      (at : ℕ) (rows : List HistoryRow) (master : Master fl)
      → All (ObservedAt at) rows
      → All (CheckedAt at) (build_scheduler_updates fl rows master)
  unfolding build_scheduler_updates
  build-CheckedAt at [] master h = tt
  build-CheckedAt at (row ∷ rows) master h =
      add_update-CheckedAt at (lookup row.video_id master) row _ h.0
        (build-CheckedAt at rows master h.1)

  -- A store that reflects an observation of `at` wherever `master` does.
  abbrev pub IsAhead : ℕ → Master fl → Master fl → Type 0
  IsAhead at master e = (k : String) → IsCaught at (lookup k master) → IsCaught at (lookup k e)

  abbrev pub CaughtIn : ℕ → Master fl → HistoryRow → Type 0
  CaughtIn at e row = IsCaught at (lookup row.video_id e)

  add_update_old :
      (v : Video fl) (row : HistoryRow) (us : List (Video fl))
      → is_applied v.tracked.last_checked_at row.observed_at ≡ true
      → add_update fl (some v) row us ≡ us
  unfolding add_update
  add_update_old v row us old = rw old

  add_update_new :
      (v : Video fl) (row : HistoryRow) (us : List (Video fl))
      → is_applied v.tracked.last_checked_at row.observed_at ≡ false
      → add_update fl (some v) row us ≡ update_video fl v row ∷ us
  unfolding add_update
  add_update_new v row us new = rw new

  insert-IsCaught_self :
      (at : ℕ) (k : String) (v : Video fl) (e : Master fl)
      → v.video_id ≡ k
      → CheckedAt at v
      → IsCaught at (lookup k (insert v.video_id v e))
  insert-IsCaught_self at k v e id c =
      rw lookup-insert (rw ((eq_iff v.video_id k).1 id) (CheckedAt-IsCaught at v c))

  -- What `rows` ask for is there once their updates are written over a store ahead of `master`.
  pub upsert-build-CaughtIn :
      (at : ℕ) (rows : List HistoryRow) (master e : Master fl)
      → IsKeyed master
      → All (ObservedAt at) rows
      → IsAhead at master e
      → All (CaughtIn at (upsert_videos fl (build_scheduler_updates fl rows master) e)) rows
  unfolding build_scheduler_updates add_update upsert_videos
  upsert-build-CaughtIn at [] master e keyed h a = tt
  upsert-build-CaughtIn at (row ∷ rows) master e keyed h a =
      go (λ e' a'. upsert-build-CaughtIn at rows master e' keyed h.1 a')
        (lookup row.video_id master) refl
    where
      rest : List (Video fl)
      rest = build_scheduler_updates fl rows master

      Shown : List (Video fl) → Type 0
      Shown us = All (CaughtIn at (upsert_videos fl us e)) (row ∷ rows)

      known : (e' : Master fl) → CaughtIn at e' row → CaughtIn at (upsert_videos fl rest e') row
      known e' c = upsert-IsCaught at row.video_id rest e' (build-CheckedAt at rows master h.1) c

      go :
          ((e' : Master fl)
            → IsAhead at master e'
            → All (CaughtIn at (upsert_videos fl rest e')) rows)
          → (found : Option (Video fl)) → lookup row.video_id master ≡ found
          → All (CaughtIn at (upsert_videos fl (add_update fl found row rest) e)) (row ∷ rows)
      go ih none absent = (known e (a row.video_id (subst (IsCaught at) (sym absent) tt)), ih e a)
      go ih (some v) found =
          elim (Bool-cases (is_applied v.tracked.last_checked_at row.observed_at)) [
            | inl old ↦ subst Shown (sym (add_update_old v row rest old)) (
              known e (
                  a row.video_id (
                    subst (IsCaught at) (sym found)
                      (subst (λ k. is_applied v.tracked.last_checked_at k ≡ true) h.0 old))),
              ih e a,
            )
            | inr new ↦
                let v' = update_video fl v row in
                let c : CheckedAt at v' =
                  subst (λ k. CheckedAt k v') h.0 (update_video-CheckedAt v row) in
                subst Shown (sym (add_update_new v row rest new)) (
                  known (insert v'.video_id v' e) (
                      insert-IsCaught_self at row.video_id v' e
                        (video_id-update_video v row ∙ keyed row.video_id v found) c),
                  ih (insert v'.video_id v' e) (λ k old. insert-IsCaught at k v' e c (a k old)),
                )
          ]

  -- Rows that the store reflects ask for nothing.
  pub build-nil :
      (at : ℕ) (rows : List HistoryRow) (master : Master fl)
      → All (ObservedAt at) rows
      → All (CaughtIn at master) rows
      → build_scheduler_updates fl rows master ≡ []
  unfolding build_scheduler_updates add_update
  build-nil at [] master h c = refl
  build-nil at (row ∷ rows) master h c = elim (Option-cases (lookup row.video_id master)) [
    | inl absent ↦ rw absent (build-nil at rows master h.1 c.1)
    | inr (v, found) ↦
        let old : is_applied v.tracked.last_checked_at row.observed_at ≡ true =
          subst (λ k. is_applied v.tracked.last_checked_at k ≡ true) (sym h.0)
            (subst (IsCaught at) found c.0) in
        rw (found, old) (build-nil at rows master h.1 c.1)
  ]

  -- Once the updates of rows of one observation time are written, the same rows have no further
  -- update: a retry after the write classifies nothing a second time.
  pub build-upsert-build :
      (at : ℕ) (rows : List HistoryRow) (master : Master fl)
      → IsKeyed master
      → All (ObservedAt at) rows
      → build_scheduler_updates fl rows
          (upsert_videos fl (build_scheduler_updates fl rows master) master)
        ≡ []
  build-upsert-build at rows master keyed h =
      build-nil at rows _ h (upsert-build-CaughtIn at rows master master keyed h (λ k c. c))
