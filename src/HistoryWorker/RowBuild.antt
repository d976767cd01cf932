-- ===== src/HistoryWorker/RowBuild.antt =====
-- What the fresh rows of a run are, which rows it carries, and the updates built from its own rows.
use yobi_analytics.Prelude.{
  ℕ, ◌≡◌, refl, String, true, false, not, Option, none, some, List, [], ◌∷◌, ◌++◌, arith, All,
  All-append, All-both, All-keep, All-map_pred, Dict, keep, subst,
}
use mathlib.Core.Option.{some-injective}
use yobi_analytics.Prelude.Sort.{sorted, All-sorted}
use yobi_analytics.TrackingSchedule.{Floats}
use yobi_analytics.HistoryWorker.Records.{HistoryRow, Video, Master, upsert_videos}
use yobi_analytics.HistoryWorker.Updates.{build_scheduler_updates}
use yobi_analytics.HistoryWorker.Replay.{
  IsKeyed, ObservedAt, CaughtIn, upsert-build-CaughtIn, build-nil,
}
use yobi_analytics.HistoryWorker.Collect.{
  Statistics, fresh_row, fresh_rows, cons_both, carried_row, master_row, add_carried,
  carry_forward_non_due_rows, row_le,
}

fresh_row-observed :
    (at : ℕ) (creator : Option String) (video : Statistics) (row : HistoryRow)
    → fresh_row at creator video ≡ some row
    → (row.observed_at ≡ at) × (row.carried_forward ≡ false)
unfolding fresh_row
fresh_row-observed at none video row e = cc
fresh_row-observed at (some c) video row e = ground arith

-- Every fresh row is of this run.
abbrev pub IsFresh : ℕ → HistoryRow → Type 0
IsFresh at row = (row.observed_at ≡ at) × (row.carried_forward ≡ false)

cons_both-IsFresh :
    (at : ℕ) (row : Option HistoryRow) (rest : Option (List HistoryRow)) (rows : List HistoryRow)
    → cons_both row rest ≡ some rows
    → ((r : HistoryRow) → row ≡ some r → IsFresh at r)
    → ((rs : List HistoryRow) → rest ≡ some rs → All (IsFresh at) rs)
    → All (IsFresh at) rows
cons_both-IsFresh at (some r) (some rs) rows e h k =
    subst (All (IsFresh at)) (some-injective _ _ e) (h r refl, k rs refl)
cons_both-IsFresh at (some r) none rows e h k = cc
cons_both-IsFresh at none rest rows e h k = cc

pub fresh_rows-IsFresh :
    (at : ℕ) (creators : Dict String) (videos : List Statistics) (rows : List HistoryRow)
    → fresh_rows at creators videos ≡ some rows
    → All (IsFresh at) rows
unfolding fresh_rows
fresh_rows-IsFresh at creators [] rows e = subst (All (IsFresh at)) (some-injective _ _ e) tt
fresh_rows-IsFresh at creators (video ∷ videos) rows e =
    cons_both-IsFresh at _ _ rows e (fresh_row-observed at _ video)
      (fresh_rows-IsFresh at creators videos)

module _ (fl : Floats) where
  abbrev pub IsCarried : HistoryRow → Type 0
  IsCarried row = row.carried_forward ≡ true

  carried_row-IsCarried :
      (k c : String) (previous : Option HistoryRow) (found : Option (Video fl)) (row : HistoryRow)
      → carried_row fl k c previous found ≡ some row
      → IsCarried row
  unfolding carried_row master_row
  carried_row-IsCarried k c (some p) found row e = ground arith
  carried_row-IsCarried k c none none row e = cc
  carried_row-IsCarried k c none (some v) row e = ground arith

  add_carried-IsCarried :
      (k : String) (row : Option HistoryRow) (rest : List HistoryRow × List String)
      → ((r : HistoryRow) → row ≡ some r → IsCarried r)
      → All IsCarried rest.0
      → All IsCarried (add_carried fl k row rest).0
  add_carried-IsCarried k none rest h all = all
  add_carried-IsCarried k (some r) rest h all = (h r refl, all)

  pub carry_forward-IsCarried :
      (non_due : Dict String) (previous : Dict HistoryRow) (master : Master fl)
      → All IsCarried (carry_forward_non_due_rows fl non_due previous master).0
  unfolding carry_forward_non_due_rows
  carry_forward-IsCarried [] previous master = tt
  carry_forward-IsCarried ((k, c) ∷ non_due) previous master =
      add_carried-IsCarried k _ _ (carried_row-IsCarried k c _ _)
        (carry_forward-IsCarried non_due previous master)

  -- The rows that a retry takes for this run's own.
  abbrev pub own_rows : List HistoryRow → List HistoryRow
  own_rows rows = keep (λ row. not row.carried_forward) rows

  abbrev updated : List HistoryRow → Master fl → Master fl
  updated fresh master = upsert_videos fl (build_scheduler_updates fl fresh master) master

  -- Read back, they ask for nothing that was not applied.
  pub own_rows-build :
      (at : ℕ) (master : Master fl) (fresh carried_rows : List HistoryRow)
      → All (IsFresh at) fresh
      → All IsCarried carried_rows
      → IsKeyed fl master
      → build_scheduler_updates fl
          (own_rows (sorted row_le (fresh ++ carried_rows)))
          (updated fresh master)
        ≡ []
  own_rows-build at master fresh carried_rows f c keyed =
      build-nil fl at (own_rows rows) (updated fresh master) (All-map_pred (λ row b. b.0) _ settled)
        (All-map_pred (λ row b. b.1) _ settled)
    where
      rows : List HistoryRow
      rows = sorted row_le (fresh ++ carried_rows)

      Settled : HistoryRow → Type 0
      Settled row = ObservedAt fl at row × CaughtIn fl at (updated fresh master) row

      observed : All (ObservedAt fl at) fresh
      observed = All-map_pred (λ row h. h.0) fresh f

      fresh_settled : All Settled fresh
      fresh_settled =
          All-both (ObservedAt fl at) (CaughtIn fl at (updated fresh master)) fresh observed
            (upsert-build-CaughtIn fl at fresh master master keyed observed (λ k h. h))

      IfOwn : HistoryRow → Type 0
      IfOwn row = not row.carried_forward ≡ true → Settled row

      settled : All Settled (own_rows rows)
      settled =
          All-keep Settled (λ row. not row.carried_forward) rows
            (All-sorted row_le IfOwn (fresh ++ carried_rows) (
              All-append IfOwn fresh carried_rows
                (All-map_pred (λ row s own. s) fresh fresh_settled)
                (All-map_pred (λ row s own. cc s) carried_rows c)))
