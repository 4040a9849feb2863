-- ===== src/Examples/Runtime.antt =====
-- Examples of the process: background tasks, resources and the database router.
use fastapi_project_structur.Common.{
  ℕ, ◌+◌, ◌*◌, ◌≤◌, ◌≡◌, refl, Bool, true, false, List, [], ◌∷◌, All, any, eqb, length, map, codes,
  leb, ◌&&◌,
}
use fastapi_project_structur.BackgroundTasks.{
  Runner, new_runner, Event, spawned, ended, admission_closed, run, drain, close_admission,
}
use fastapi_project_structur.BackgroundTasks.Bounds.{
  run-max, accepted, run-accounts, drain_complete,
}
use fastapi_project_structur.Resources.{
  Ran, completed, timed_out, failed, ResourceManager, new_manager, cleanup_reserve, close,
}
use fastapi_project_structur.Resources.Closing.{close-elapsed, is_interrupted}
use fastapi_project_structur.Common.{if◌then◌else◌, some, not, Bool-cases, inl, inr, arith}
use fastapi_project_structur.Resources.Startup.{
  Cleanups, Start, NeverInterrupt, attempts_of, start_redis, manage_application_resources,
  manage_closes_all,
}
use fastapi_project_structur.DbRouter.Statement.{
  Clause, update_base, select, statement_is_readable, text_is_readable,
}
use fastapi_project_structur.DbRouter.{
  Engine, writer, reader, State, new_session, Answer, done, dbapi_error, reader_of,
}
use fastapi_project_structur.DbRouter.Paths.{trace, IsPath, trace-IsPath}
use fastapi_project_structur.DbRouter.Readable.{quoted_comment, quoted_comment-readable}

abbrev events : List Event
events = spawned 1 ∷ spawned 2 ∷ spawned 3 ∷ ended 1 ∷ spawned 4 ∷ admission_closed ∷ spawned 5 ∷ []

run-max_example : length (run events (new_runner 2)).tasks ≤ 2
run-max_example = run-max 2 events

run-accounts_example :
    accepted events (new_runner 2)
      + (run events (new_runner 2)).dropped
      + (run events (new_runner 2)).rejected_after_close
    ≡ 5
run-accounts_example = run-accounts events (new_runner 2)

abbrev running : Runner
running = record (new_runner 4) { tasks = 3 ∷ 2 ∷ [] }

drain_complete_example :
    ((drain (ended 2 ∷ spawned 7 ∷ []) (2 ∷ []) running).1.tasks ≡ [])
    × ((drain (ended 2 ∷ spawned 7 ∷ []) (2 ∷ []) running).1.closed ≡ true)
    × All
        (λ t. any (eqb t) (drain (ended 2 ∷ spawned 7 ∷ []) (2 ∷ []) running).0 ≡ true)
        (3 ∷ 2 ∷ [])
    × All
        (λ t. any (eqb t) (drain (ended 2 ∷ spawned 7 ∷ []) (2 ∷ []) running).0 ≡ true)
        (run (ended 2 ∷ spawned 7 ∷ []) (close_admission running)).tasks
drain_complete_example = drain_complete (ended 2 ∷ spawned 7 ∷ []) (2 ∷ []) running

-- A cleanup that needs 12 seconds and is cancelled when its time is over.
abbrev disposed : ℕ → Ran
disposed given =
    if leb 12000 given
    then record { spent = 12000; ended = completed }
    else record { spent = given; ended = timed_out }

-- One that blocks for 8 seconds: it is not cancelled, and returns.
abbrev blocking : ℕ → Ran
blocking given = record { spent = 8000; ended = completed }

abbrev manager : ResourceManager
manager = record new_manager {
  resources =
      record { name = "logging-queue"; budget = 5000; cleanup = blocking }
      ∷ record { name = "db-engines"; budget = 10000; cleanup = disposed }
      ∷ [];
}

within : (given : ℕ) → 8000 ≤ given + 8000
within given = omega arith

cut : (given : ℕ) → (disposed given).spent ≤ given + 8000
cut given = elim (Bool-cases (leb 12000 given)) [
  | inl e ↦ rw e (ground (arith, e))
  | inr e ↦ rw e (omega arith)
]

close-elapsed_example : (close manager).result.elapsed ≤ 20000 + 2 * (cleanup_reserve + 8000)
close-elapsed_example = close-elapsed 8000 manager (within, (cut, tt))

-- ASCII letters, and no change of case.
abbrev letter : ℕ → Bool
letter c = leb b'a' c && leb c b'z'

abbrev same : List ℕ → List ℕ
same word = word

-- The second reader cannot be reached.
abbrev driver : Engine → Clause → Answer
driver writer c = done
driver (reader i) c = dbapi_error (record { connection_invalidated = false; code = some 2003 })

abbrev session : State
session = record {
  router = record { readers = 2; sticky_after_write = true; cursor = 1 };
  info = record new_session { read_only = true };
}

abbrev statements : List Clause
statements = select false ∷ select false ∷ []

trace-IsPath_example :
    IsPath letter same driver (reader_of session).0 (trace letter same driver statements session)
trace-IsPath_example = trace-IsPath letter same driver statements session refl

insert_refused : statement_is_readable letter same update_base ≡ false
unfolding statement_is_readable
insert_refused = refl

-- `select '/*' for update -- */'`
quoted_comment-readable_example :
    text_is_readable letter same (quoted_comment (codes "' for update -- "))
    ≡ text_is_readable letter same (codes "select ' '")
quoted_comment-readable_example = quoted_comment-readable letter same (codes "' for update -- ") (
  refl,
  (
    refl,
    (
      refl,
      (
        refl,
        (
          refl,
          (
            refl,
            (refl, (refl, (refl, (refl, (refl, (refl, (refl, (refl, (refl, (refl, tt)))))))))),
          ),
        ),
      ),
    ),
  ),
)

abbrev quick : ℕ → Ran
quick given = record { spent = 10; ended = completed }

abbrev cleanups : Cleanups
cleanups = record {
  stop_queue_listener = blocking;
  dispose_engine = λ given. record { spent = given; ended = timed_out };
  close_redis = λ given. record { spent = 1; ended = failed };
  drain_tasks = quick;
}

abbrev no_redis : Start
no_redis = record {
  redis_client = true;
  ping = false;
  redis_version = true;
  debug = true;
  db_tables = true;
}

never : NeverInterrupt cleanups
unfolding is_interrupted
never = record {
  queue = λ given. refl;
  engines = λ given. refl;
  redis = λ given. refl;
  tasks = λ given. refl;
}

manage_closes_all_example :
    map (λ a. a.name) (attempts_of (manage_application_resources cleanups no_redis).1) ≡ (
      if not no_redis.redis_client
      then []
      else if start_redis no_redis
      then "background-tasks" ∷ "redis" ∷ "db-engines" ∷ "logging-queue" ∷ []
      else "redis" ∷ "db-engines" ∷ "logging-queue" ∷ [])
manage_closes_all_example = manage_closes_all cleanups no_redis never
