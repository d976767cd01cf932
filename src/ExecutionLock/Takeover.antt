-- ===== src/ExecutionLock/Takeover.antt =====
-- Calls of src/collection/execution_lock.py after an acquire, and on a complete day.
use yobi_analytics.ConditionalTable.{Write}
use yobi_analytics.ExecutionLock.{
  Row, Status, in_progress, complete, failed, epoch, is_held_by, may_acquire, acquire_row,
  renew_row, complete_row, failed_row, acquire_write, renew_write, complete_write, failed_write,
}
use yobi_analytics.ExecutionLock.Table.{
  Table, Reply, done, condition_failed, other_error, Applied, Unchanged, Effect, Result, returned,
  held, outcome, Call, acquire, renew, mark_complete, mark_failed, owner_of, write_of, perform,
  serve,
}
use yobi_analytics.ExecutionLock.Exclusion.{IsBlocked, Refused, not_returned, serve-blocked}
use yobi_analytics.Prelude.{
  ℕ, ◌≤◌, ◌≡◌, ◌≢◌, ◌⊎◌, String, Bool, true, false, Option, none, some, List, arith, All,
  All-map_pred, str_eq, eq_iff, eq_refl, if◌then◌else◌, ◌∙◌, refl, [], ◌∷◌, Bool-cases, inl, inr,
  sym, ap, subst,
}
use mathlib.Core.Bool.{true≢false}

-- A row that an acquire may replace.
abbrev pub IsFree : ℕ → Bool → Option Row → Type 0
IsFree now_epoch force none = Unit
IsFree now_epoch force (some row) =
    (row.status ≡ failed)
    ⊎ ((row.status ≡ in_progress) × (row.expires_at ≤ now_epoch))
    ⊎ ((row.status ≡ complete) × (force ≡ true))

status-cases : (st : Status) → (st ≡ failed) ⊎ (st ≡ in_progress) ⊎ (st ≡ complete)
status-cases in_progress = ground arith
status-cases complete = ground arith
status-cases failed = ground arith

may_acquire-IsFree :
    (now : ℕ) (force : Bool) (item : Option Row)
    → may_acquire now force item ≡ true
    → IsFree now force item
unfolding may_acquire
may_acquire-IsFree now force none h = tt
may_acquire-IsFree now force (some row) h = ground arith

-- An acquire that returns found the date free (no row, a failed one, a lease that ran out by the
-- caller's clock, or a complete one under recovery), and leaves the caller's fresh row there and
-- every other date as it was.
pub acquire-IsFree :
    (t : Table) (d owner : String) (now lease : ℕ) (force : Bool) (s : t.State)
    → (perform t d (acquire owner now lease force) s).0 ≡ returned
    → IsFree (epoch now) force (t.read s d)
      × ((j : String)
          → t.read (perform t d (acquire owner now lease force) s).1 j
            ≡ (if str_eq d j then some (acquire_row owner now lease) else t.read s j))
unfolding perform outcome write_of acquire_write
acquire-IsFree t d owner now lease force s h =
    from_reply (t.write w d s).0 (t.write w d s).1 h (t.write_effect w d s)
  where
    w : Write Row
    w = acquire_write owner now lease force

    from_reply :
        (reply : Reply) (s' : t.State)
        → outcome held reply ≡ returned
        → Effect str_eq t.read reply w d s s'
        → IsFree (epoch now) force (t.read s d)
          × ((j : String)
              → t.read s' j
                ≡ (if str_eq d j then some (acquire_row owner now lease) else t.read s j))
    from_reply done s' h e = (may_acquire-IsFree (epoch now) force (t.read s d) e.0, e.1)
    from_reply condition_failed s' h e = cc
    from_reply other_error s' h e = cc

-- The row is there and belongs to an execution other than `former`.
abbrev pub IsOthers : String → Option Row → Type 0
IsOthers former none = ⊥
IsOthers former (some row) = row.owner_token ≢ former

-- The call is no acquire of `former` for date `d`.
abbrev pub IsNoReturn : String → String → String × Call → Type 0
IsNoReturn d former (k, acquire o _ _ _) = str_eq k d ≡ true → o ≢ former
IsNoReturn d former (k, c) = Unit

-- No call of `former` for date `d` returned.
abbrev pub RefusedTo : String → String → List (String × Call) → List Result → Type 0
RefusedTo d former [] rs = Unit
RefusedTo d former (call ∷ calls) [] = Unit
RefusedTo d former ((k, c) ∷ calls) (r ∷ rs) =
    ((str_eq k d ≡ true) → owner_of c ≡ former → r ≢ returned) × RefusedTo d former calls rs

item-IsOthers :
    (d former k : String) (c : Call) (item : Option Row)
    → str_eq k d ≡ true
    → IsNoReturn d former (k, c)
    → IsOthers former item
    → IsOthers former ((write_of c).item item)
unfolding write_of acquire_write renew_write complete_write failed_write acquire_row renew_row
    complete_row failed_row
item-IsOthers d former k c none same n h = absurd h
item-IsOthers d former k (acquire o now lease force) (some row) same n h = n same
item-IsOthers d former k (renew o now lease phase shard) (some row) same n h = h
item-IsOthers d former k (mark_complete o now) (some row) same n h = h
item-IsOthers d former k (mark_failed o now message) (some row) same n h = h

former-blocked :
    (d former k : String) (c : Call) (item : Option Row)
    → str_eq k d ≡ true
    → IsNoReturn d former (k, c)
    → IsOthers former item
    → owner_of c ≡ former
    → (write_of c).condition item ≡ false
unfolding write_of renew_write complete_write failed_write is_held_by
former-blocked d former k c none same n h e = absurd h
former-blocked d former k (acquire o now lease force) (some row) same n h e = absurd (n same e)
former-blocked d former k (renew o now lease phase shard) (some row) same n h e =
    ground (arith, eq_iff row.owner_token o)
former-blocked d former k (mark_complete o now) (some row) same n h e =
    ground (arith, eq_iff row.owner_token o)
former-blocked d former k (mark_failed o now message) (some row) same n h e =
    ground (arith, eq_iff row.owner_token o)

module _ (t : Table) (d former : String) where
  Applied-IsOthers :
      (k : String) (c : Call) (s s' : t.State)
      → IsNoReturn d former (k, c)
      → IsOthers former (t.read s d)
      → Applied str_eq t.read (write_of c) k s s'
      → IsOthers former (t.read s' d) × ((str_eq k d ≡ true) → owner_of c ≢ former)
  Applied-IsOthers k c s s' n h (met, reads) = elim (Bool-cases (str_eq k d)) [
    | inl same ↦
        let k-eq : k ≡ d = (eq_iff k d).0 same in
        (
          subst (IsOthers former)
              (sym (reads d ∙ rw same (ap (λ j. (write_of c).item (t.read s j)) k-eq)))
              (item-IsOthers d former k c (t.read s d) same n h),
          λ _ e. true≢false (
              sym met
              ∙ ap (λ j. (write_of c).condition (t.read s j)) k-eq
              ∙ former-blocked d former k c (t.read s d) same n h e),
        )
    | inr other ↦ (
      subst (IsOthers former) (sym (reads d ∙ rw other refl)) h,
      λ same. absurd (true≢false (sym same ∙ other)),
    )
  ]

  Unchanged-IsOthers :
      (s s' : t.State)
      → IsOthers former (t.read s d)
      → Unchanged str_eq t.read s s'
      → IsOthers former (t.read s' d)
  Unchanged-IsOthers s s' h same = subst (IsOthers former) (sym (same d)) h

  Effect-IsOthers :
      (reply : Reply) (k : String) (c : Call) (s s' : t.State)
      → IsNoReturn d former (k, c)
      → IsOthers former (t.read s d)
      → Effect str_eq t.read reply (write_of c) k s s'
      → IsOthers former (t.read s' d) × ((str_eq k d ≡ true) → owner_of c ≡ former → reply ≢ done)
  Effect-IsOthers done k c s s' n h e =
      let (kept, never) = Applied-IsOthers k c s s' n h e in
      (kept, λ same mine. absurd (never same mine))
  Effect-IsOthers condition_failed k c s s' n h (_, same) =
      (Unchanged-IsOthers s s' h same, λ _ _ e. cc)
  Effect-IsOthers other_error k c s s' n h (inl e) =
      ((Applied-IsOthers k c s s' n h e).0, λ _ _ e'. cc)
  Effect-IsOthers other_error k c s s' n h (inr same) =
      (Unchanged-IsOthers s s' h same, λ _ _ e'. cc)

  serve-IsOthers :
      (calls : List (String × Call)) (s : t.State)
      → IsOthers former (t.read s d)
      → All (IsNoReturn d former) calls
      → IsOthers former (t.read (serve t calls s).1 d)
        × RefusedTo d former calls (serve t calls s).0
  unfolding serve perform
  serve-IsOthers [] s h n = (h, tt)
  serve-IsOthers ((k, c) ∷ calls) s h n =
      let (reply, s') = t.write (write_of c) k s in
      let (kept, never) = Effect-IsOthers reply k c s s' n.0 h (t.write_effect (write_of c) k s) in
      let (end, rest) = serve-IsOthers calls s' kept n.1 in
      (end, ((λ same mine. not_returned c reply (never same mine)), rest))

acquired-IsOthers :
    (owner former : String) (now lease : ℕ)
    → owner ≢ former
    → IsOthers former (some (acquire_row owner now lease))
unfolding acquire_row
acquired-IsOthers owner former now lease other = other

-- Once an acquire of one execution has returned, no renewal, completion or failure of another, former
-- one returns for that date, and the date's row is there and is never the former execution's, whatever
-- calls of whichever callers come after it, further acquires and recoveries and the new owner's own
-- calls included, as long as the former execution does not acquire the date again.
pub serve-takeover :
    (t : Table) (d owner former : String) (now lease : ℕ) (force : Bool) (s : t.State)
    (calls : List (String × Call))
    → owner ≢ former
    → (perform t d (acquire owner now lease force) s).0 ≡ returned
    → All (IsNoReturn d former) calls
    → let after = serve t calls (perform t d (acquire owner now lease force) s).1 in
      IsOthers former (t.read after.1 d) × RefusedTo d former calls after.0
serve-takeover t d owner former now lease force s calls other h n =
    serve-IsOthers t d former calls _
      (subst (IsOthers former) {x = some (acquire_row owner now lease)}
        (sym ((acquire-IsFree t d owner now lease force s h).1 d ∙ rw eq_refl))
        (acquired-IsOthers owner former now lease other))
      n

-- A call that is no recovery, for date `d`.
abbrev pub IsOrdinary : String → String × Call → Type 0
IsOrdinary d (k, acquire _ _ _ force) = str_eq k d ≡ true → force ≡ false
IsOrdinary d (k, c) = Unit

complete-IsBlocked :
    (d : String) (row : Row) (call : String × Call)
    → row.status ≡ complete
    → IsOrdinary d call
    → IsBlocked d (some row) call
unfolding write_of acquire_write may_acquire renew_write complete_write failed_write is_held_by
complete-IsBlocked d row (k, acquire o now lease force) e h same = rw (e, may_acquire) (h same)
complete-IsBlocked d row (k, renew o now lease phase shard) e h same = ground arith
complete-IsBlocked d row (k, mark_complete o now) e h same = ground arith
complete-IsBlocked d row (k, mark_failed o now message) e h same = ground arith

-- A complete day stays complete: without recovery no call for its date returns, also none of the
-- owner that completed it, and the row stays as it is.
pub serve-complete_final :
    (t : Table) (d : String) (row : Row) (calls : List (String × Call)) (s : t.State)
    → row.status ≡ complete
    → t.read s d ≡ some row
    → All (IsOrdinary d) calls
    → (t.read (serve t calls s).1 d ≡ some row) × Refused d calls (serve t calls s).0
serve-complete_final t d row calls s finished at_d h =
    serve-blocked t d (some row) calls s at_d
      (All-map_pred (λ call. complete-IsBlocked d row call finished) calls h)
