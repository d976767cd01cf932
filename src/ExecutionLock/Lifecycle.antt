-- ===== src/ExecutionLock/Lifecycle.antt =====
-- The rows that calls of src/collection/execution_lock.py can leave in the table.
use yobi_analytics.ExecutionLock.{
  Row, Status, Phase, in_progress, complete, failed, epoch, complete_retention_seconds, acquire_row,
  acquire_write, renew_write, renew_row, complete_write, complete_row, failed_write, failed_row,
  add_shard, is_held_by,
}
use yobi_analytics.ExecutionLock.Message.{
  sanitize_error_message, max_last_error_length, sanitize_error_message-IsOneLine,
}
use yobi_analytics.ExecutionLock.Table.{
  Table, Reply, done, condition_failed, other_error, Applied, Effect, Call, acquire, renew,
  mark_complete, mark_failed, write_of, perform, serve,
}
use yobi_analytics.Prelude.{
  ℕ, ◌+◌, ◌≤◌, ◌≡◌, inl, inr, String, true, false, Option, none, some, List, [], ◌∷◌, arith, length,
  exists, ◌==◌, str_eq, ◌∙◌, sym, refl, subst, Bool-cases,
}

-- A number set holds a number once.
abbrev pub IsDistinct : List ℕ → Type 0
IsDistinct [] = Unit
IsDistinct (n ∷ ns) = (exists (λ m. m == n) ns ≡ false) × IsDistinct ns

-- What ends an execution: the time is recorded, and the row expires thirty days later.
abbrev pub IsEnded : Row → Type 0
IsEnded row =
    (now : ℕ) × (row.completed_at ≡ some now)
    × (row.ttl_at ≡ some (epoch now + complete_retention_seconds))

abbrev pub MatchesStatus : Status → Row → Type 0
MatchesStatus in_progress row =
    (row.completed_at ≡ none) × (row.ttl_at ≡ none) × (row.last_error ≡ none)
MatchesStatus complete row =
    (row.current_phase ≡ Phase.complete) × IsEnded row × (row.last_error ≡ none)
MatchesStatus failed row =
    (row.current_phase ≡ Phase.failed)
    × IsEnded row
    × ((message : List ℕ) × (row.last_error ≡ some message)
        × (length message ≤ max_last_error_length))

abbrev pub IsWellFormed : Option Row → Type 0
IsWellFormed none = Unit
IsWellFormed (some row) = MatchesStatus row.status row × IsDistinct row.completed_shards

add_shard-IsDistinct :
    (shard : Option ℕ) (ns : List ℕ) → IsDistinct ns → IsDistinct (add_shard shard ns)
unfolding add_shard
add_shard-IsDistinct none ns h = h
add_shard-IsDistinct (some n) ns h = elim (Bool-cases (exists (λ m. m == n) ns)) [
  | inl e ↦ rw e h
  | inr e ↦ rw e (e, h)
]

held-status :
    (owner : String) (row : Row) → is_held_by owner (some row) ≡ true → row.status ≡ in_progress
unfolding is_held_by
held-status owner row h = ground arith

in_progress-facts :
    (owner : String) (row : Row)
    → is_held_by owner (some row) ≡ true
    → MatchesStatus row.status row
    → MatchesStatus in_progress row
in_progress-facts owner row h m = subst (λ st. MatchesStatus st row) (held-status owner row h) m

-- A write whose condition holds takes a well-formed item to a well-formed one.
write_of-IsWellFormed :
    (c : Call) (item : Option Row)
    → (write_of c).condition item ≡ true
    → IsWellFormed item
    → IsWellFormed ((write_of c).item item)
unfolding write_of acquire_write acquire_row renew_write renew_row complete_write complete_row
    failed_write failed_row
write_of-IsWellFormed (acquire o now lease force) item c h = ((refl, refl, refl), tt)
write_of-IsWellFormed (renew o now lease phase shard) none c h = tt
write_of-IsWellFormed (renew o now lease phase shard) (some row) c h = (
  subst (λ st. MatchesStatus st (renew_row now lease phase shard row))
      (sym (held-status o row (unfold renew_write in c)))
      (in_progress-facts o row (unfold renew_write in c) h.0),
  add_shard-IsDistinct shard row.completed_shards h.1,
)
write_of-IsWellFormed (mark_complete o now) none c h = tt
write_of-IsWellFormed (mark_complete o now) (some row) c h =
    ((refl, (now, refl, refl), (in_progress-facts o row c h.0).2), h.1)
write_of-IsWellFormed (mark_failed o now message) none c h = tt
write_of-IsWellFormed (mark_failed o now message) (some row) c h = (
  (
    refl,
    (now, refl, refl),
    (sanitize_error_message message, refl, (sanitize_error_message-IsOneLine message).1),
  ),
  h.1,
)

module _ (t : Table) where
  abbrev pub AllWellFormed : t.State → Type 0
  AllWellFormed s = (d : String) → IsWellFormed (t.read s d)

  Applied-AllWellFormed :
      (c : Call) (k : String) (s s' : t.State)
      → AllWellFormed s
      → Applied str_eq t.read (write_of c) k s s'
      → AllWellFormed s'
  Applied-AllWellFormed c k s s' h (met, reads) d = elim (Bool-cases (str_eq k d)) [
    | inl same ↦
        subst IsWellFormed (sym (reads d ∙ rw same))
          (write_of-IsWellFormed c (t.read s k) met (h k))
    | inr other ↦ subst IsWellFormed (sym (reads d ∙ rw other)) (h d)
  ]

  Effect-AllWellFormed :
      (reply : Reply) (c : Call) (k : String) (s s' : t.State)
      → AllWellFormed s
      → Effect str_eq t.read reply (write_of c) k s s'
      → AllWellFormed s'
  Effect-AllWellFormed done c k s s' h e = Applied-AllWellFormed c k s s' h e
  Effect-AllWellFormed condition_failed c k s s' h (_, reads) =
      λ d. subst IsWellFormed (sym (reads d)) (h d)
  Effect-AllWellFormed other_error c k s s' h (inl e) = Applied-AllWellFormed c k s s' h e
  Effect-AllWellFormed other_error c k s s' h (inr reads) =
      λ d. subst IsWellFormed (sym (reads d)) (h d)

  -- Calls of any callers, also those that end in an error, keep every row well formed: its end is
  -- recorded exactly when its status says that it ended, with the retention that follows, its error
  -- is there exactly when it failed and fits the limit, and each shard is recorded once.
  pub serve-AllWellFormed :
      (calls : List (String × Call)) (s : t.State)
      → AllWellFormed s
      → AllWellFormed (serve t calls s).1
  unfolding serve perform
  serve-AllWellFormed [] s h = h
  serve-AllWellFormed ((k, c) ∷ calls) s h =
      serve-AllWellFormed calls (t.write (write_of c) k s).1 (
        Effect-AllWellFormed (t.write (write_of c) k s).0 c k s (t.write (write_of c) k s).1 h
          (t.write_effect (write_of c) k s))
