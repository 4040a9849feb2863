-- ===== src/RateLimiter.antt =====
-- app/core/security/rate_limiter.py, and the login's use of it in
-- app/features/auth/dependencies/auth_dependencies.py. The counters of Redis are a parameter.
pub mod Limits
use fastapi_project_structur.Common.{
  ℕ, suc, ◌<◌, String, ◌≡◌, Bool, true, false, not, Option, none, some, leb, ltb, ◌==◌, ◌+++◌,
  if◌then◌else◌,
}
use fastapi_project_structur.Exceptions.{AppException, too_many_requests, Result, ok, err}

-- The commands of the limiter. `count` is the number under a key, 0 where there is none; `ttl` is
-- 0 where the reply of TTL is negative.
pub record Counters : Type 1 where
  pub Db : Type 0
  pub count : String → Db → ℕ
  pub ttl : String → Db → ℕ
  -- INCR, EXPIRE … NX and DEL
  pub incr : String → Db → ℕ × Db
  pub expire_nx : String → ℕ → Db → Db
  pub delete : String → Db → Db
  pub incr-reply : (k : String) (db : Db) → (incr k db).0 ≡ suc (count k db)
  pub count-incr :
      (k j : String) (db : Db)
      → count j (incr k db).1 ≡ (if k == j then suc (count j db) else count j db)
  pub count-expire_nx :
      (k j : String) (t : ℕ) (db : Db) → 0 < t → count j (expire_nx k t db) ≡ count j db
  pub count-delete :
      (k j : String) (db : Db) → count j (delete k db) ≡ (if k == j then 0 else count j db)

pub record RateLimitResult : Type 0 where
  pub allowed : Bool
  pub retry_after : ℕ

module _ (K : Counters) where
  open K use {Db}

  unfoldable pub judged : ℕ → ℕ → ℕ → ℕ → RateLimitResult
  judged count limit ttl window =
      if leb count limit
      then record { allowed = true; retry_after = 0 }
      else record { allowed = false; retry_after = if ltb 0 ttl then ttl else window }

  unfoldable pub hit : String → (limit window : ℕ) → Db → RateLimitResult × Db
  hit key limit window db =
      let (count, counted) = K.incr key db in
      let after = K.expire_nx key window counted in
      (judged count limit (K.ttl key after) window, after)

  unfoldable pub reset : String → Db → Db
  reset key db = K.delete key db

  -- one round of the loop of login_rate_limit
  pub check : String → (limit window : ℕ) → Db → Result (Unit {0}) × Db
  check key limit window db =
      let (result, after) = hit key limit window db in
      (if not result.allowed then err (too_many_requests result.retry_after) else ok tt, after)

  abbrev pub ip_key : String → String
  ip_key ip = "auth:rl:login-ip:" +++ ip

  abbrev pub user_key : (ip lowered : String) → String
  user_key ip lowered = "auth:rl:login:" +++ (ip +++ (":" +++ lowered))

  pub second : Result (Unit {0}) → String → (limit window : ℕ) → Db → Result String × Db
  second (err e) key limit window db = (err e, db)
  second (ok tt) key limit window db =
      let (r, after) = check key limit window db in
      (elim r [ err e ↦ err e | ok u ↦ ok key ], after)

  -- `lowered` is form.username.lower()
  pub login_rate_limit :
      (ip lowered : String) (ip_limit user_limit window : ℕ) → Db → Result String × Db
  login_rate_limit ip lowered ip_limit user_limit window db =
      let (r, after) = check (ip_key ip) ip_limit window db in
      second r (user_key ip lowered) user_limit window after

  pub register_rate_limit : (ip : String) (limit window : ℕ) → Db → Result (Unit {0}) × Db
  register_rate_limit ip limit window db = check ("auth:rl:register:" +++ ip) limit window db
