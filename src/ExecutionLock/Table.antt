-- ===== src/ExecutionLock/Table.antt =====
-- The four operations of src/collection/execution_lock.py on their DynamoDB table.
pub use yobi_analytics.ConditionalTable.{
  Reply, done, condition_failed, other_error, Applied, Unchanged, Effect,
}
use yobi_analytics.ConditionalTable.{Write, ConditionalTable}
use yobi_analytics.ExecutionLock.{
  Row, Phase, acquire_write, renew_write, complete_write, failed_write,
}
use yobi_analytics.Prelude.{ℕ, String, Bool, Option, List, [], ◌∷◌, str_eq}

abbrev pub Table : Type 1
Table = ConditionalTable String Row str_eq

pub data Result : Type 0 where
  returned held lost lock_error : Result

-- `_raise_if_conditional_check_failed` with the error class that the caller names.
unfoldable pub outcome : Result → Reply → Result
outcome on_condition done = returned
outcome on_condition condition_failed = on_condition
outcome on_condition other_error = lock_error

-- One call of this module by one of its callers, with the caller's clock.
pub data Call : Type 0 where
  acquire : (owner_token : String) (now lease_seconds : ℕ) (force_recovery : Bool) → Call
  renew : (owner_token : String) (now lease_seconds : ℕ) (phase : Phase) (shard : Option ℕ) → Call
  mark_complete : (owner_token : String) (now : ℕ) → Call
  mark_failed : (owner_token : String) (now : ℕ) (error_message : List ℕ) → Call

abbrev pub owner_of : Call → String
owner_of (acquire o _ _ _) = o
owner_of (renew o _ _ _ _) = o
owner_of (mark_complete o _) = o
owner_of (mark_failed o _ _) = o

abbrev pub clock_of : Call → ℕ
clock_of (acquire _ now _ _) = now
clock_of (renew _ now _ _ _) = now
clock_of (mark_complete _ now) = now
clock_of (mark_failed _ now _) = now

unfoldable pub write_of : Call → Write Row
write_of (acquire o now lease force) = acquire_write o now lease force
write_of (renew o now lease phase shard) = renew_write o now lease phase shard
write_of (mark_complete o now) = complete_write o now
write_of (mark_failed o now message) = failed_write o now message

abbrev pub on_condition_failed : Call → Result
on_condition_failed (acquire _ _ _ _) = held
on_condition_failed _ = lost

module _ (t : Table) where
  -- acquire_execution_lock, renew_execution_lock, mark_execution_complete, mark_execution_failed.
  unfoldable pub perform : String → Call → t.State → Result × t.State
  unfolding outcome write_of
  perform report_date c s =
      let (reply, s') = t.write (write_of c) report_date s in
      (outcome (on_condition_failed c) reply, s')

  -- Calls of any callers for any dates, in the order in which the table serves them.
  unfoldable pub serve : List (String × Call) → t.State → List Result × t.State
  serve [] s = ([], s)
  serve ((d, c) ∷ calls) s =
      let (r, s') = perform d c s in let (rs, s'') = serve calls s' in (r ∷ rs, s'')
