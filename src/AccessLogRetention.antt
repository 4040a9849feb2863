-- ===== src/AccessLogRetention.antt =====
-- app/features/home/services/access_log_retention_service.py: rows of the access log that are older
-- than the retention period are deleted in batches, each committed. The table is an interface: how
-- many rows are older than a time, and a deletion of a limited number of them. Times are in days.
pub mod Purge
use fastapi_project_structur.Common.{
  ℕ, zero, suc, ◌+◌, ◌-◌, ◌≡◌, Bool, true, false, Option, none, some, eqb, ltb, min, if◌then◌else◌,
}

pub record Logs : Type 1 where
  pub Table : Type 0
  pub expired : (cutoff : ℕ) → Table → ℕ
  -- DELETE … WHERE created_at < cutoff LIMIT limit, and the number of rows deleted
  pub delete_created_before : (cutoff limit : ℕ) → Table → ℕ × Table
  pub delete-reply :
      (cutoff limit : ℕ) (table : Table)
      → (delete_created_before cutoff limit table).0 ≡ min limit (expired cutoff table)
  pub expired-delete :
      (cutoff limit : ℕ) (table : Table)
      → expired cutoff (delete_created_before cutoff limit table).1
        ≡ expired cutoff table - min limit (expired cutoff table)

module _ (logs : Logs) (retention_days batch_size : ℕ) where
  open logs use {Table}

  pub cutoff : ℕ → ℕ
  cutoff now = now - retention_days

  -- The loop, with fuel: `none` is a loop that goes on.
  pub purge_loop : ℕ → (cutoff : ℕ) → (total : ℕ) → Table → Option (ℕ × Table)
  purge_loop zero before total table = none
  purge_loop (suc fuel) before total table =
      let (deleted, table') = logs.delete_created_before before batch_size table in
      let rest = purge_loop fuel before (total + deleted) table' in
      if ltb deleted batch_size then some (total + deleted, table') else rest

  pub purge_expired : (fuel now : ℕ) → Table → Option (ℕ × Table)
  purge_expired fuel now table =
      if eqb retention_days 0 then some (0, table) else purge_loop fuel (cutoff now) 0 table
