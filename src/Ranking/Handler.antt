-- ===== src/Ranking/Handler.antt =====
-- lambda_handler of src/analytics/ranking_reducer.py with its three branches, over the table of
-- execution locks. A date stands for its ISO text through `iso`; `stamp` is the text of `now`.
use yobi_analytics.Prelude.{
  ℕ, ◌≡◌, ◌≢◌, refl, eq_refl, false, Option, none, some, List, [], ◌∷◌, String,
}
use yobi_analytics.ExecutionLock.{renew_write, is_held_by, reducing, reducer_renew_lease_seconds}
use yobi_analytics.ExecutionLock.Table.{
  Table, Result, perform, serve, renew, mark_complete, mark_failed, returned, held, lost,
  lock_error, write_of,
}
use yobi_analytics.ExecutionLock.Exclusion.{serve-blocked}
use yobi_analytics.Ranking.Reducer.{Sources, VideoRankingResult, build_and_persist_video_rankings}

-- `reduce` is the event without either mark.
pub data Event : Type 0 where
  mark_complete_for : (report_date : ℕ) (owner_token : String) → Event
  mark_failed_for : (report_date : ℕ) (owner_token : String) (error : Option (List ℕ)) → Event
  reduce : (report_date : ℕ) (owner_token : String) → Event

-- `event.get("error") or "unknown error"`, by code points.
unfoldable pub error_or_unknown : Option (List ℕ) → List ℕ
error_or_unknown (some (c ∷ cs)) = c ∷ cs
error_or_unknown _ = 117 ∷ 110 ∷ 107 ∷ 110 ∷ 111 ∷ 119 ∷ 110 ∷ 32 ∷ 101 ∷ 114 ∷ 114 ∷ 111 ∷ 114 ∷ []

-- `returned` where the handler returns; another result is the exception that it raises.
pub record Outcome (State : Type 0) : Type 0 where
  pub result : Result
  pub puts : List VideoRankingResult
  pub state : State

abbrev puts_after : Result → Option Sources → ℕ → String → List VideoRankingResult
puts_after returned src report_date stamp = build_and_persist_video_rankings src report_date stamp
puts_after _ src report_date stamp = []

module _ (t : Table) (iso : ℕ → String) (src : Option Sources) (now : ℕ) (stamp : String) where
  unfoldable pub handle : Event → t.State → Outcome t.State
  unfolding perform error_or_unknown build_and_persist_video_rankings
  handle (mark_complete_for d owner) s =
      let (r, s') = perform t (iso d) (mark_complete owner now) s in
      record { result = r; puts = []; state = s' }
  handle (mark_failed_for d owner error) s =
      let (r, s') = perform t (iso d) (mark_failed owner now (error_or_unknown error)) s in
      record { result = r; puts = []; state = s' }
  handle (reduce d owner) s =
      let (r, s') =
        perform t (iso d) (renew owner now reducer_renew_lease_seconds reducing none) s in
      record { result = r; puts = puts_after r src d stamp; state = s' }

  no_puts : (r : Result) (d : ℕ) → r ≢ returned → puts_after r src d stamp ≡ []
  no_puts returned d h = absurd (h refl)
  no_puts held d h = refl
  no_puts lost d h = refl
  no_puts lock_error d h = refl

  -- The reducer of an owner that does not hold the day's lock, or whose run is marked complete or
  -- failed, raises before it builds any ranking: it puts no result and leaves the lock's item.
  pub reducer_puts_under_lease :
      (d : ℕ) (owner : String) (s : t.State)
      → is_held_by owner (t.read s (iso d)) ≡ false
      → let o = handle (reduce d owner) s in
        (o.puts ≡ []) × (o.result ≢ returned) × (t.read o.state (iso d) ≡ t.read s (iso d))
  unfolding handle serve perform write_of renew_write
  reducer_puts_under_lease d owner s h =
      let call = renew owner now reducer_renew_lease_seconds reducing none in
      let (kept, refused) =
        serve-blocked t (iso d) (t.read s (iso d)) ((iso d, call) ∷ []) s refl (λ same. h, tt) in
      let raised = refused.0 (eq_refl (iso d)) in (no_puts _ d raised, raised, kept)
