-- ===== src/ExecutionLock/Tests.antt =====
-- Small runs of the lock on a table in memory.
use yobi_analytics.ExecutionLock.{
  Row, acquire_row, reducing, acquire_lease_seconds, reducer_renew_lease_seconds, may_acquire,
  is_held_by, acquire_write, renew_write, complete_write, complete_row,
}
use yobi_analytics.ExecutionLock.Message.{sanitize_error_message}
use yobi_analytics.ExecutionLock.Memory.{Memory, memory}
use yobi_analytics.ExecutionLock.Table.{
  returned, held, lost, Call, acquire, renew, mark_complete, mark_failed, perform, serve,
}
use yobi_analytics.ExecutionLock.Exclusion.{Refused, serve-lease_exclusive}
use yobi_analytics.ExecutionLock.Takeover.{IsOthers, RefusedTo, serve-takeover}
use yobi_analytics.ExecutionLock.Lifecycle.{AllWellFormed, serve-AllWellFormed}
use yobi_analytics.Prelude.{
  ℕ, ◌+◌, ◌*◌, String, true, false, none, some, List, [], ◌∷◌, ◌≡◌, ◌≢◌, refl, arith, str_eq,
  eq_iff, if◌then◌else◌,
}

-- 2026-08-29 00:00:00 UTC, and minutes after it.
abbrev at_minute : ℕ → ℕ
at_minute m = 1787961600000000 + m * 60000000

abbrev day : String
day = "2026-08-29"

abbrev empty : Memory
empty = λ _. none

abbrev first_row : Row
unfolding acquire_row
first_row = acquire_row "run-1" (at_minute 0) acquire_lease_seconds

abbrev one_run : Memory
one_run = λ j. if str_eq day j then some first_row else none

abbrev one_complete : Memory
one_complete = λ j. if str_eq day j then some (complete_row (at_minute 30) first_row) else none

abbrev intruders : List (String × Call)
intruders =
    (day, acquire "run-2" (at_minute 60) acquire_lease_seconds true)
    ∷ (day, mark_failed "run-2" (at_minute 61) [])
    ∷ ("2026-08-30", acquire "run-2" (at_minute 500) acquire_lease_seconds false)
    ∷ []

-- Two runs of one day: the second is refused until the lease of the first has run out.
race :
    (serve memory
      ((day, acquire "run-1" (at_minute 0) acquire_lease_seconds false)
        ∷ (day, acquire "run-2" (at_minute 89) acquire_lease_seconds false)
        ∷ (day, acquire "run-2" (at_minute 90) acquire_lease_seconds false)
        ∷ (day, mark_complete "run-1" (at_minute 91))
        ∷ (day, mark_complete "run-2" (at_minute 92))
        ∷ (day, acquire "run-3" (at_minute 500) acquire_lease_seconds false)
        ∷ (day, acquire "run-3" (at_minute 500) acquire_lease_seconds true)
        ∷ [])
      empty).0
    ≡ returned ∷ held ∷ returned ∷ lost ∷ returned ∷ held ∷ returned ∷ []
unfolding serve perform may_acquire is_held_by acquire_write renew_write complete_write acquire_row
    complete_row
race = refl

run2-ne-run1 : ◌≢◌ {A = String} "run-2" "run-1"
run2-ne-run1 = ground (arith, eq_iff "run-2" "run-1")

serve-lease_exclusive_example :
    ((serve memory intruders one_run).1 day ≡ some first_row)
    × Refused day intruders (serve memory intruders one_run).0
unfolding acquire_row
serve-lease_exclusive_example =
    serve-lease_exclusive memory day first_row intruders one_run refl refl
      ((λ _. (run2-ne-run1, omega arith)), ((λ _. (run2-ne-run1, omega arith)), ((λ e. cc), tt)))

abbrev late_calls : List (String × Call)
late_calls =
    (day, renew "run-1" (at_minute 91) reducer_renew_lease_seconds reducing none)
    ∷ (day, mark_complete "run-1" (at_minute 92))
    ∷ []

taken_over :
    (perform memory day (acquire "run-2" (at_minute 90) acquire_lease_seconds false) one_run).0
    ≡ returned
unfolding perform acquire_write may_acquire acquire_row
taken_over = refl

run3-ne-run1 : ◌≢◌ {A = String} "run-3" "run-1"
run3-ne-run1 = ground (arith, eq_iff "run-3" "run-1")

-- The former run's late calls among the new owner's and those of a third run, which takes over next.
abbrev calls_after_takeover : List (String × Call)
calls_after_takeover =
    (day, renew "run-2" (at_minute 91) reducer_renew_lease_seconds reducing none)
    ∷ (day, renew "run-1" (at_minute 92) reducer_renew_lease_seconds reducing none)
    ∷ (day, mark_failed "run-2" (at_minute 93) [])
    ∷ (day, acquire "run-3" (at_minute 94) acquire_lease_seconds false)
    ∷ (day, mark_complete "run-1" (at_minute 95))
    ∷ []

serve-takeover_example :
    let after : Memory =
      (perform memory day (acquire "run-2" (at_minute 90) acquire_lease_seconds false) one_run).1 in
    IsOthers "run-1" ((serve memory calls_after_takeover after).1 day)
    × RefusedTo day "run-1" calls_after_takeover (serve memory calls_after_takeover after).0
serve-takeover_example =
    serve-takeover memory day "run-2" "run-1" (at_minute 90) acquire_lease_seconds false one_run
      calls_after_takeover run2-ne-run1 taken_over (tt, (tt, (tt, ((λ _. run3-ne-run1), (tt, tt)))))

abbrev ordinary_calls : List (String × Call)
ordinary_calls =
    (day, acquire "run-2" (at_minute 500) acquire_lease_seconds false)
    ∷ (day, mark_failed "run-1" (at_minute 501) [])
    ∷ []

serve-AllWellFormed_example : AllWellFormed memory (serve memory late_calls empty).1
serve-AllWellFormed_example = serve-AllWellFormed memory late_calls empty (λ _. tt)

one_line : sanitize_error_message (97 ∷ 10 ∷ 32 ∷ 98 ∷ 9 ∷ []) ≡ 97 ∷ 32 ∷ 98 ∷ []
unfolding sanitize_error_message
one_line = refl
