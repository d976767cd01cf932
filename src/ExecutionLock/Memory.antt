-- ===== src/ExecutionLock/Memory.antt =====
-- A table of execution locks in memory, whose writes take effect in order.
use yobi_analytics.Prelude.{String, Option, refl, str_eq, if◌then◌else◌, Bool-cases, inl, inr}
use yobi_analytics.ConditionalTable.{Write}
use yobi_analytics.ExecutionLock.{Row}
use yobi_analytics.ExecutionLock.Table.{Table, Reply, Effect, done, condition_failed}

abbrev pub Memory : Type 0
Memory = String → Option Row

abbrev memory_write : Write Row → String → Memory → Reply × Memory
memory_write w key s =
    if w.condition (s key)
    then (done, λ j. if str_eq key j then w.item (s key) else s j)
    else (condition_failed, s)

pub memory_write-Effect :
    (w : Write Row) (key : String) (s : Memory)
    → Effect str_eq
        (λ (m : Memory) j. m j)
        (memory_write w key s).0
        w
        key
        s
        (memory_write w key s).1
memory_write-Effect w key s = elim (Bool-cases (w.condition (s key))) [
  | inl e ↦ rw e (e, λ j. refl)
  | inr e ↦ rw e (e, λ j. refl)
]

abbrev pub memory : Table
memory = record {
  State = Memory;
  read = λ m j. m j;
  write = memory_write;
  write_effect = memory_write-Effect;
}
