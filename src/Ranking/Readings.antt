-- ===== src/Ranking/Readings.antt =====
-- src/analytics/ranking_reducer.py: the rows of the day that a run has read.
use yobi_analytics.Prelude.{
  ℕ, zero, suc, ◌-◌, ◌≡◌, sym, ap, ◌∙◌, Option, none, some, List, [], ◌++◌, keep, inl, inr,
  Option-cases,
}
use mathlib.Core.Option.{some-injective}
use mathlib.Core.List.{append-nil, append_assoc}
use yobi_analytics.Prelude.Optional.{◌>>=◌}
use yobi_analytics.HistoryWorker.Records.{HistoryRow}
use yobi_analytics.Ranking.VideoCatalog.{day, week, month, days_of}
use yobi_analytics.Ranking.Reducer.{
  Sources, CatalogEntry, Read, by_period, read_round, read_rounds, read_all,
}

none-ne-some : (acc : Read) → none ≡ some acc → ⊥
none-ne-some acc h = cc

-- The rows of one shard; none where it could not be read.
abbrev pub shard_rows : Option (List HistoryRow) → List HistoryRow
shard_rows none = []
shard_rows (some rows) = rows

-- The rows of a date in so many shards from one on.
abbrev pub rows_of_date : Sources → (date shard n : ℕ) → List HistoryRow
rows_of_date src date shard zero = []
rows_of_date src date shard (suc n) =
    shard_rows (src.read_daily_shard date shard) ++ rows_of_date src date (suc shard) n

round_of :
    (o d w m : Option (List HistoryRow)) (entries : Option (List CatalogEntry)) (acc next : Read)
    → (do
      today ← o
      d' ← d
      w' ← w
      m' ← m
      es ← entries
      some (record {
        today = acc.today ++ today;
        anchors = λ p. acc.anchors p ++ by_period d' w' m' p;
        entries = acc.entries ++ keep (λ e. e.active) es;
      }))
      ≡ some next
    → next.today ≡ acc.today ++ shard_rows o
round_of none d w m entries acc next h = absurd (none-ne-some next h)
round_of (some today) none w m entries acc next h = absurd (none-ne-some next h)
round_of (some today) (some _) none m entries acc next h = absurd (none-ne-some next h)
round_of (some today) (some _) (some _) none entries acc next h = absurd (none-ne-some next h)
round_of (some today) (some _) (some _) (some _) none acc next h = absurd (none-ne-some next h)
round_of (some today) (some _) (some _) (some _) (some _) acc next h =
    ap (λ r. r.today) (sym (some-injective _ _ h))

read_round-today :
    (src : Sources) (date shard : ℕ) (acc next : Read)
    → read_round src date shard acc ≡ some next
    → next.today ≡ acc.today ++ shard_rows (src.read_daily_shard date shard)
unfolding read_round
read_round-today src date shard acc next h =
    round_of (src.read_daily_shard date shard) (src.read_daily_shard (date - days_of day) shard)
      (src.read_daily_shard (date - days_of week) shard)
      (src.read_daily_shard (date - days_of month) shard) (src.read_shard shard) acc next h

read_rounds-today :
    (src : Sources) (date shard n : ℕ) (acc last : Read)
    → read_rounds src date shard n acc ≡ some last
    → last.today ≡ acc.today ++ rows_of_date src date shard n
unfolding read_rounds
read_rounds-today src date shard zero acc last h =
    ap (λ r. r.today) (sym (some-injective _ _ h)) ∙ sym (append-nil acc.today)
read_rounds-today src date shard (suc n) acc last h =
    elim (Option-cases (read_round src date shard acc)) [
      | inl e ↦ absurd (none-ne-some last (rw e at h))
      | inr (next, e) ↦
          let rows = shard_rows (src.read_daily_shard date shard) in
          let step : next.today ≡ acc.today ++ rows = read_round-today src date shard acc next e in
          read_rounds-today src date (suc shard) n next last (rw e at h)
          ∙ ap (λ xs. xs ++ rows_of_date src date (suc shard) n) step
          ∙ append_assoc acc.today rows (rows_of_date src date (suc shard) n)
    ]

pub read_all-today :
    (src : Sources) (date : ℕ) (acc : Read)
    → read_all src date ≡ some acc
    → acc.today ≡ rows_of_date src date 0 16
unfolding read_all
read_all-today src date acc h =
    read_rounds-today src date 0 16 (record { today = []; anchors = λ _. []; entries = [] }) acc h
