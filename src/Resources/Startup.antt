-- ===== src/Resources/Startup.antt =====
-- app/core/resources.py, manage_application_resources: the resources of the process in the order of
-- their registration, and the closing at the end, also of a start that failed. What the cleanups
-- do, and which steps of the start succeed, are arguments.
use fastapi_project_structur.Common.{
  ℕ, String, ◌≡◌, refl, Bool, false, not, ◌&&◌, ◌||◌, Option, none, some, List, [], ◌∷◌, map,
  Bool-cases, inl, inr, if◌then◌else◌,
}
use fastapi_project_structur.Resources.{
  Ran, ManagedResource, ResourceManager, new_manager, register, acquire, Attempt, Closed, close,
}
use fastapi_project_structur.Resources.Closing.{is_interrupted, close-names}

-- What each cleanup does with the time that it is given.
pub record Cleanups : Type 0 where
  pub stop_queue_listener : ℕ → Ran
  pub dispose_engine : ℕ → Ran
  pub close_redis : ℕ → Ran
  pub drain_tasks : ℕ → Ran

-- Which steps of the start succeed: Redis.from_url, ping, check_redis_version and create_db_tables.
pub record Start : Type 0 where
  pub redis_client : Bool
  pub ping : Bool
  pub redis_version : Bool
  pub debug : Bool
  pub db_tables : Bool

abbrev resource : String → ℕ → (ℕ → Ran) → ManagedResource
resource name budget cleanup = record { name = name; budget = budget; cleanup = cleanup }

pub start_redis : Start → Bool
start_redis s = s.ping && s.redis_version

pub base : Cleanups → ResourceManager
base c =
    (register (resource "db-engines" 10000 c.dispose_engine)
      (register (resource "logging-queue" 5000 c.stop_queue_listener) new_manager).1).1

-- Whether the application is served, and the manager at the end.
pub prepare : Cleanups → Start → Bool × ResourceManager
prepare c s =
    let (acquired, m) = acquire (resource "redis" 5000 c.close_redis) (start_redis s) (base c) in
    if not acquired then (false, m) else (
      not s.debug || s.db_tables,
      (register (resource "background-tasks" 5000 c.drain_tasks) m).1,
    )

-- the `try` with its `finally`
pub guarded : Bool × ResourceManager → Bool × Option Closed
guarded (served, m) = (served, some (close m))

-- Redis.from_url stands before the `try`: where it raises, nothing is closed.
pub manage_application_resources : Cleanups → Start → Bool × Option Closed
manage_application_resources c s = if s.redis_client then guarded (prepare c s) else (false, none)

pub attempts_of : Option Closed → List Attempt
attempts_of none = []
attempts_of (some closed) = closed.result.attempts

-- No cleanup raises a BaseException that is no Exception.
pub record NeverInterrupt (c : Cleanups) : Type 0 where
  pub queue : (given : ℕ) → is_interrupted (c.stop_queue_listener given).ended ≡ false
  pub engines : (given : ℕ) → is_interrupted (c.dispose_engine given).ended ≡ false
  pub redis : (given : ℕ) → is_interrupted (c.close_redis given).ended ≡ false
  pub tasks : (given : ℕ) → is_interrupted (c.drain_tasks given).ended ≡ false

-- If no cleanup raises a BaseException that is no Exception, the end of the process tries to
-- close every resource that was registered, the background tasks first, then Redis, the
-- database engines and the log queue, whatever the cleanups do and whatever step of the start
-- failed after the Redis client was made; the background tasks are left out exactly where
-- Redis did not start. If the making of the Redis client raises, nothing is closed.
pub manage_closes_all :
    (c : Cleanups) (s : Start)
    → NeverInterrupt c
    → map (λ a. a.name) (attempts_of (manage_application_resources c s).1) ≡ (
        if not s.redis_client
        then []
        else if start_redis s
        then "background-tasks" ∷ "redis" ∷ "db-engines" ∷ "logging-queue" ∷ []
        else "redis" ∷ "db-engines" ∷ "logging-queue" ∷ [])
unfolding manage_application_resources guarded attempts_of prepare base register acquire
manage_closes_all c s never = elim (Bool-cases s.redis_client) [
  | inl client ↦ elim (Bool-cases (start_redis s)) [
    | inl e ↦
        simp (client, e)
          (close-names _ refl (never.queue, (never.engines, (never.redis, (never.tasks, tt)))))
    | inr e ↦
        simp (client, e) (close-names _ refl (never.queue, (never.engines, (never.redis, tt))))
  ]
  | inr no_client ↦ simp no_client refl
]
