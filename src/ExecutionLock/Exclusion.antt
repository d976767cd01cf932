-- ===== src/ExecutionLock/Exclusion.antt =====
-- Calls of src/collection/execution_lock.py against a row whose lease is live.
use yobi_analytics.ExecutionLock.{
  Row, in_progress, may_acquire, is_held_by, epoch, acquire_write, renew_write, complete_write,
  failed_write,
}
use yobi_analytics.ConditionalTable.{Effect-blocked}
use yobi_analytics.ExecutionLock.Table.{
  Table, Reply, done, condition_failed, other_error, Result, returned, outcome, Call, acquire,
  renew, mark_complete, mark_failed, owner_of, clock_of, write_of, on_condition_failed, perform,
  serve,
}
use yobi_analytics.Prelude.{
  ◌<◌, ◌≡◌, ◌≢◌, refl, String, true, false, Option, some, List, [], ◌∷◌, arith, All, All-map_pred,
  str_eq, eq_iff,
}

-- The call's condition fails on the item, if the call is for date `d`.
abbrev pub IsBlocked : String → Option Row → String × Call → Type 0
IsBlocked d item (k, c) = (str_eq k d ≡ true) → (write_of c).condition item ≡ false

-- No call for date `d` returned.
abbrev pub Refused : String → List (String × Call) → List Result → Type 0
Refused d [] rs = Unit
Refused d (call ∷ calls) [] = Unit
Refused d ((k, c) ∷ calls) (r ∷ rs) = ((str_eq k d ≡ true) → r ≢ returned) × Refused d calls rs

pub not_returned :
    (c : Call) (reply : Reply) → reply ≢ done → outcome (on_condition_failed c) reply ≢ returned
unfolding outcome
not_returned c done h e = h refl
not_returned (acquire _ _ _ _) condition_failed h e = cc
not_returned (renew _ _ _ _ _) condition_failed h e = cc
not_returned (mark_complete _ _) condition_failed h e = cc
not_returned (mark_failed _ _ _) condition_failed h e = cc
not_returned c other_error h e = cc

module _ (t : Table) where
  Effect-refused :
      (d : String) (item : Option Row) (c : Call) (k : String) (s : t.State)
      → t.read s d ≡ item
      → IsBlocked d item (k, c)
      → let (reply, s') = t.write (write_of c) k s in
        (t.read s' d ≡ item)
        × ((str_eq k d ≡ true) → outcome (on_condition_failed c) reply ≢ returned)
  Effect-refused d item c k s at_d blocked =
      let (kept, never) =
        Effect-blocked str_eq t.read (λ i j same. (eq_iff i j).0 same) d item
          (t.write (write_of c) k s).0 (write_of c) k s (t.write (write_of c) k s).1 at_d blocked
          (t.write_effect (write_of c) k s) in
      (kept, λ same. not_returned c _ (never same))

  -- Blocked calls, in any number and mixed with calls for other dates, return nothing and leave
  -- the item as it is.
  pub serve-blocked :
      (d : String) (item : Option Row) (calls : List (String × Call)) (s : t.State)
      → t.read s d ≡ item
      → All (IsBlocked d item) calls
      → (t.read (serve t calls s).1 d ≡ item) × Refused d calls (serve t calls s).0
  unfolding serve perform
  serve-blocked d item [] s at_d h = (at_d, tt)
  serve-blocked d item ((k, c) ∷ calls) s at_d h =
      let (kept, refused) = Effect-refused d item c k s at_d h.0 in
      let (end, rest) = serve-blocked d item calls (t.write (write_of c) k s).1 kept h.1 in
      (end, (refused, rest))

-- Another owner's call, made while the row's lease has not run out by the caller's clock.
abbrev pub IsIntruder : Row → Call → Type 0
IsIntruder row c = (owner_of c ≢ row.owner_token) × (epoch (clock_of c) < row.expires_at)

intruder-blocked :
    (row : Row) (c : Call)
    → row.status ≡ in_progress
    → IsIntruder row c
    → (write_of c).condition (some row) ≡ false
unfolding write_of acquire_write may_acquire renew_write complete_write failed_write is_held_by
intruder-blocked row (acquire o now lease force) e h = rw (e, may_acquire) (ground arith)
intruder-blocked row (renew o now lease phase shard) e h = ground (arith, eq_iff row.owner_token o)
intruder-blocked row (mark_complete o now) e h = ground (arith, eq_iff row.owner_token o)
intruder-blocked row (mark_failed o now message) e h = ground (arith, eq_iff row.owner_token o)

-- The call is an intruder's, if it is for date `d`.
abbrev pub Intrudes : String → Row → String × Call → Type 0
Intrudes d row (k, c) = (str_eq k d ≡ true) → IsIntruder row c

-- While a lease is live, no call of another owner for its date returns, whether it acquires
-- (recovery included), renews, completes or fails, and the row stays as it is; calls for other
-- dates may stand between them. The clocks are the callers' own.
pub serve-lease_exclusive :
    (t : Table) (d : String) (row : Row) (calls : List (String × Call)) (s : t.State)
    → row.status ≡ in_progress
    → t.read s d ≡ some row
    → All (Intrudes d row) calls
    → (t.read (serve t calls s).1 d ≡ some row) × Refused d calls (serve t calls s).0
serve-lease_exclusive t d row calls s live at_d h =
    serve-blocked t d (some row) calls s at_d
      (All-map_pred (λ (k, c) i same. intruder-blocked row c live (i same)) calls h)
