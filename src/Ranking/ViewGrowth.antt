-- ===== src/Ranking/ViewGrowth.antt =====
-- src/analytics/view_growth_analytics.py: the growth of a video between two snapshots. A date is its
-- ordinal and a percentage its numerator and denominator; the texts of the result's dates are left
-- out.
use yobi_analytics.Prelude.{
  ℕ, suc, ◌-◌, ◌≡◌, refl, Bool, true, false, Option, none, some, String, str_eq, max, ltb, is_some,
  ◌&&◌, ◌||◌, not, if◌then◌else◌, arith,
}
use yobi_analytics.Prelude.Integers.{ℤ, minus}
use yobi_analytics.Ranking.VideoCatalog.{Period, days_of}

-- 2026-08-29
abbrev pub collection_start_date : ℕ
collection_start_date = 739857

pub record ViewSnapshot : Type 0 where
  pub view_count : ℕ
  pub observed_at : String

pub data GrowthStatus : Type 0 where
  status_ok status_pending status_not_available : GrowthStatus

pub record DatedViewCount : Type 0 where
  pub date : ℕ
  pub status : GrowthStatus
  pub view_count : Option ℕ
  pub last_updated_at : Option String

unfoldable pub comparison_date : ℕ → Period → ℕ
comparison_date report_date period = report_date - days_of period

abbrev pub missing_status : ℕ → ℕ → GrowthStatus
missing_status target earliest_available =
    if ltb target (max collection_start_date earliest_available)
    then status_not_available
    else status_pending

unfoldable pub resolve_point : ℕ → Option ViewSnapshot → ℕ → DatedViewCount
resolve_point target (some snapshot) earliest_available = record {
  date = target;
  status = status_ok;
  view_count = some snapshot.view_count;
  last_updated_at = some snapshot.observed_at;
}
resolve_point target none earliest_available = record {
  date = target;
  status = missing_status target earliest_available;
  view_count = none;
  last_updated_at = none;
}

pub record GrowthResult : Type 0 where
  pub latest : DatedViewCount
  pub comparison : DatedViewCount
  pub status : GrowthStatus
  pub growth : Option ℤ
  pub growth_percent : Option (ℤ × ℕ)
  pub last_updated_at : Option String

-- `not_available` outranks `pending`.
abbrev pub overall_status : GrowthStatus → GrowthStatus → GrowthStatus
overall_status status_not_available _ = status_not_available
overall_status _ status_not_available = status_not_available
overall_status status_ok status_ok = status_ok
overall_status _ _ = status_pending

abbrev pub growth_between : Option ℕ → Option ℕ → Option ℤ
growth_between (some latest) (some comparison) = some (minus latest comparison)
growth_between _ _ = none

abbrev pub percent_between : Option ℕ → Option ℕ → Option (ℤ × ℕ)
percent_between (some latest) (some (suc n)) = some (minus latest (suc n), suc n)
percent_between _ _ = none

-- `a or b` for a text that may be None.
abbrev pub text_or : Option String → Option String → Option String
text_or none b = b
text_or (some a) b = if str_eq a "" then b else some a

unfoldable pub calculate_growth :
    ℕ → Period → Option ViewSnapshot → Option ViewSnapshot → ℕ → GrowthResult
unfolding resolve_point comparison_date minus
calculate_growth report_date period latest_snapshot comparison_snapshot earliest_available =
    let latest = resolve_point report_date latest_snapshot earliest_available in
    let comparison =
      resolve_point (comparison_date report_date period) comparison_snapshot earliest_available in
    record {
      latest = latest;
      comparison = comparison;
      status = overall_status latest.status comparison.status;
      growth = growth_between latest.view_count comparison.view_count;
      growth_percent = percent_between latest.view_count comparison.view_count;
      last_updated_at = text_or latest.last_updated_at comparison.last_updated_at;
    }

abbrev is_not_available : GrowthStatus → Bool
is_not_available status_not_available = true
is_not_available _ = false

-- The snapshot is missing and its date is before the first that the video can have.
abbrev never_comes : ℕ → ℕ → Option ViewSnapshot → Bool
never_comes target earliest_available snapshot =
    not (is_some snapshot) && ltb target (max collection_start_date earliest_available)

-- There is a growth exactly where both snapshots are there, and the result is not available exactly
-- where one of them is missing for good.
pub calculate_growth_lem :
    (report_date : ℕ) (period : Period) (latest comparison : Option ViewSnapshot) (earliest : ℕ)
    → let result = calculate_growth report_date period latest comparison earliest in
      (is_some result.growth ≡ (is_some latest && is_some comparison))
      × (is_not_available result.status ≡ (
          never_comes report_date earliest latest
          || never_comes (comparison_date report_date period) earliest comparison))
unfolding calculate_growth resolve_point
calculate_growth_lem report_date period (some l) (some c) earliest = (refl, refl)
calculate_growth_lem report_date period (some l) none earliest = (refl, ground arith)
calculate_growth_lem report_date period none (some c) earliest = (refl, ground arith)
calculate_growth_lem report_date period none none earliest = (refl, ground arith)
