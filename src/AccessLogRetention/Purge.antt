-- ===== src/AccessLogRetention/Purge.antt =====
-- The loop of the purge (app/features/home/services/access_log_retention_service.py).
use fastapi_project_structur.Common.{
  ℕ, zero, suc, ◌+◌, ◌-◌, ◌<◌, ◌≡◌, ap, ◌∙◌, true, false, Option, some, eqb, ltb, min, arith,
  Bool-cases, inl, inr,
}
use fastapi_project_structur.AccessLogRetention.{Logs, cutoff, purge_loop, purge_expired}

module _ (logs : Logs) (retention_days batch_size : ℕ) (pos : 0 < batch_size) where
  open logs use {Table}

  -- The loop ends with this total, and no row is left that is older than the time.
  Purged : ℕ → ℕ → Option (ℕ × Table) → Type 0
  Purged before total result =
      (table : Table) × (result ≡ some (total, table)) × (logs.expired before table ≡ 0)

  positive : (n : ℕ) → 0 < n → eqb n 0 ≡ false
  positive n h = ground (arith, h)

  zero_plus : (n : ℕ) → 0 + n ≡ n
  zero_plus n = omega arith

  last_batch : (b e : ℕ) → ltb (min b e) b ≡ true → e - min b e ≡ 0
  last_batch b e h = ground (arith, h)

  last_total : (b e t : ℕ) → ltb (min b e) b ≡ true → t + min b e ≡ t + e
  last_total b e t h = ground (arith, h)

  fewer :
      (b e fuel r : ℕ) → ltb (min b e) b ≡ false → 0 < b → e < suc fuel → r ≡ e - min b e → r < fuel
  fewer b e fuel r full some_rows h left = ground (arith, full, some_rows, h, left)

  same_total : (b e t d r : ℕ) → d ≡ min b e → r ≡ e - min b e → t + d + r ≡ t + e
  same_total b e t d r reply left = ground (arith, reply, left)

  purge_loop-Purged :
      (fuel before total : ℕ) (table : Table)
      → logs.expired before table < fuel
      → Purged before
          (total + logs.expired before table)
          (purge_loop logs retention_days batch_size fuel before total table)
  unfolding purge_loop Purged
  purge_loop-Purged zero before total table h = ground (arith, h)
  purge_loop-Purged (suc fuel) before total table h =
      let e = logs.expired before table in
      let after = (logs.delete_created_before before batch_size table).1 in
      let reply = logs.delete-reply before batch_size table in
      let left = logs.expired-delete before batch_size table in
      elim (Bool-cases (ltb (min batch_size e) batch_size)) [
        | inl done ↦ (
          after,
          rw (reply, done) (ap (λ n. some (n, after)) (last_total batch_size e total done)),
          left ∙ last_batch batch_size e done,
        )
        | inr more ↦
            let (rest, ended, none_left) =
              purge_loop-Purged fuel before
                (total + (logs.delete_created_before before batch_size table).0) after
                (fewer batch_size e fuel (logs.expired before after) more pos h left) in
            (
              rest,
              rw (ap (λ n. ltb n batch_size) reply ∙ more) (
                  ended
                  ∙ ap (λ n. some (n, rest))
                      (same_total batch_size e total _ (logs.expired before after) reply left)),
              none_left,
            )
      ]

  -- For positive batch sizes and retention periods, the purge of the access log ends as soon
  -- as it has more fuel than there are rows that are too old; it returns their number and
  -- leaves none of them.
  pub purge_expired_ends :
      (fuel now : ℕ) (table : Table)
      → 0 < retention_days
      → logs.expired (now - retention_days) table < fuel
      → (after : Table) × (purge_expired logs retention_days batch_size fuel now table
          ≡ some (logs.expired (now - retention_days) table, after))
        × (logs.expired (now - retention_days) after ≡ 0)
  unfolding purge_expired cutoff Purged
  purge_expired_ends fuel now table days enough =
      let (after, ended, none_left) =
        purge_loop-Purged fuel (now - retention_days) 0 table enough in
      (
        after,
        rw (positive retention_days days) (ended ∙ ap (λ n. some (n, after)) (zero_plus _)),
        none_left,
      )
