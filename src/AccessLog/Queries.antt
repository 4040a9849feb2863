-- ===== src/AccessLog/Queries.antt =====
-- The queries of app/features/home/services/user_access_log_service.py, over those of its
-- repository; instants are numbers.
use fastapi_project_structur.Common.{ℕ, String, Option, List, [], ◌∷◌, ltb, if◌then◌else◌}
use fastapi_project_structur.Exceptions.{bad_request, Result, ok, err}

-- UserAccessLogRepository, and the rows that it answers with.
pub record Logs (Row : Type 0) : Type 1 where
  pub Table : Type 0
  pub get_all : (skip limit : ℕ) → Table → List Row
  pub count : Table → ℕ
  pub get_by_date_range : (start_date end_date skip limit : ℕ) → Table → List Row
  pub count_by_device_type : Table → List (Option String × ℕ)
  pub count_by_os : Table → List (Option String × ℕ)
  pub count_by_browser : Table → List (Option String × ℕ)

-- A name and how many requests had it; AccessLogStats.
pub record Count : Type 0 where
  pub name : Option String
  pub count : ℕ

pub record AccessLogStats : Type 0 where
  pub total_count : ℕ
  pub device_types : List Count
  pub os_list : List Count
  pub browsers : List Count

unfoldable pub counted : List (Option String × ℕ) → List Count
counted [] = []
counted ((name, n) ∷ rest) = record { name = name; count = n } ∷ counted rest

module _ {Row : Type 0} (logs : Logs Row) where
  open logs use {Table}

  unfoldable pub get_access_logs : (skip limit : ℕ) → Table → List Row × ℕ
  get_access_logs skip limit table = (logs.get_all skip limit table, logs.count table)

  -- InvalidDateRangeException is a bad request
  unfoldable pub get_logs_by_date_range :
      (start_date end_date skip limit : ℕ) → Table → Result (List Row)
  get_logs_by_date_range start_date end_date skip limit table =
      if ltb end_date start_date
      then err bad_request
      else ok (logs.get_by_date_range start_date end_date skip limit table)

  unfoldable pub get_stats : Table → AccessLogStats
  get_stats table = record {
    total_count = logs.count table;
    device_types = counted (logs.count_by_device_type table);
    os_list = counted (logs.count_by_os table);
    browsers = counted (logs.count_by_browser table);
  }
