-- ===== src/Reports.antt =====
-- app/features/reports/services/report_service.py, and the time zone of config.py. A date is its
-- ordinal, an instant is in seconds; the zone's rules are a parameter.
pub mod Days
use fastapi_project_structur.Common.{
  ℕ, ◌+◌, ◌-◌, ◌/◌, ◌%◌, String, Bool, true, false, ◌||◌, List, [], ◌∷◌, ◌++◌, ltb, eqb, codes,
  if◌then◌else◌,
}
use fastapi_project_structur.Exceptions.{bad_request, Result, ok, err}

-- A UTC offset: seconds east or west of it.
pub data Offset : Type 0 where
  east west : ℕ → Offset

-- What ZoneInfo tells: the instant of a date's midnight, and the offset at an instant.
pub record Zone : Type 0 where
  pub midnight : ℕ → ℕ
  pub offset_at : ℕ → Offset

-- TimezoneSettings.local_dates_to_utc
unfoldable pub local_dates_to_utc : Zone → (start last : ℕ) → ℕ × ℕ
local_dates_to_utc zone start last = (zone.midnight start, zone.midnight (last + 1))

-- {n:02d} for at most two digits
abbrev pub two_digits : ℕ → List ℕ
two_digits n = (48 + n / 10) ∷ (48 + n % 10) ∷ []

abbrev pub clock : (sign minutes : ℕ) → List ℕ
clock sign minutes = sign ∷ (two_digits (minutes / 60) ++ (b':' ∷ two_digits (minutes % 60)))

-- `//` rounds down, so that a part of a minute west of UTC counts as one
unfoldable pub written_offset : Offset → List ℕ
written_offset (east s) = clock b'+' (s / 60)
written_offset (west s) = if eqb s 0 then clock b'+' 0 else clock b'-' ((s + 59) / 60)

-- TimezoneSettings.utc_offset
unfoldable pub utc_offset : Zone → ℕ → List ℕ
utc_offset zone at = written_offset (zone.offset_at at)

abbrev pub max_report_days : ℕ
max_report_days = 366

-- 1970-01-01 and 9998-12-31
abbrev pub min_report_date : ℕ
min_report_date = 719163

abbrev pub max_report_date : ℕ
max_report_date = 3651694

-- The arguments of the query.
pub record Query : Type 0 where
  pub start_at : ℕ
  pub end_at : ℕ
  pub tz_offset : List ℕ

unfoldable pub query_of : Zone → ℕ × ℕ → Query
query_of zone (lower, upper) = record {
  start_at = lower;
  end_at = upper;
  tz_offset = utc_offset zone lower;
}

-- get_daily_sales up to its query; InvalidDateRangeException is a bad request
unfoldable pub get_daily_sales : Zone → (start_date end_date : ℕ) → Result Query
get_daily_sales zone start_date end_date =
    if ltb end_date start_date
    then err bad_request
    else if ltb start_date min_report_date || ltb max_report_date end_date
    then err bad_request
    else if ltb max_report_days (end_date - start_date + 1)
    then err bad_request
    else ok (query_of zone (local_dates_to_utc zone start_date end_date))
