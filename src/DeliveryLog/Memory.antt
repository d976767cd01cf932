-- ===== src/DeliveryLog/Memory.antt =====
-- A delivery log in memory.
use yobi_analytics.Prelude.{refl, Option, none, Bool-cases, if◌then◌else◌, inl, inr}
use yobi_analytics.ConditionalTable.{Write, Reply, done, condition_failed, Effect}
use yobi_analytics.DeliveryLog.{LogRow, Key, same_key, LogTable}

abbrev pub Memory : Type 0
Memory = Key → Option LogRow

abbrev pub memory_write : Write LogRow → Key → Memory → Reply × Memory
memory_write w key s =
    if w.condition (s key)
    then (done, λ j. if same_key key j then w.item (s key) else s j)
    else (condition_failed, s)

pub memory_write-Effect :
    (w : Write LogRow) (key : Key) (s : Memory)
    → Effect same_key
        (λ (m : Memory) j. m j)
        (memory_write w key s).0
        w
        key
        s
        (memory_write w key s).1
memory_write-Effect w key s = elim (Bool-cases (w.condition (s key))) [
  | inl e ↦ rw e (e, λ j. refl)
  | inr e ↦ rw e (e, λ j. refl)
]

abbrev pub log_memory : LogTable
log_memory = record {
  State = Memory;
  read = λ m j. m j;
  write = memory_write;
  write_effect = memory_write-Effect;
}

abbrev pub empty_log : Memory
empty_log = λ _. none
