-- ===== src/Celery.antt =====
-- app/celery/task.py and worker_lifecycle.py: the event loop of a worker process, across the fork
-- that makes the process. A loop is its number; new_event_loop takes the next one.
pub mod Forked
use fastapi_project_structur.Common.{
  ℕ, suc, Bool, true, false, ◌||◌, Option, none, some, List, [], ◌∷◌, any, eqb, if◌then◌else◌,
}
use fastapi_project_structur.QueueLogging.{Process, restart_queue_listener_after_fork}
use fastapi_project_structur.Repository.Dependencies.{dispose_all, targets}

pub record Worker : Type 0 where
  -- _worker_loop
  pub loop : Option ℕ
  pub closed : List ℕ
  pub next_loop : ℕ

unfoldable pub is_closed : ℕ → Worker → Bool
is_closed l w = any (eqb l) w.closed

unfoldable pub new_loop : Worker → ℕ × Worker
new_loop w = (w.next_loop, record w { loop = some w.next_loop; next_loop = suc w.next_loop })

-- the loop that a coroutine runs on
unfoldable pub running : Option ℕ → Worker → ℕ × Worker
running none w = new_loop w
running (some l) w = if is_closed l w then new_loop w else (l, w)

unfoldable pub run_async : Worker → ℕ × Worker
run_async w = running w.loop w

unfoldable pub reset_worker_loop : Worker → Worker
reset_worker_loop w = record w { loop = none }

-- the loop that was closed by this call, if it closed one
unfoldable pub closing : Option ℕ → Worker → Option ℕ × Worker
closing none w = (none, w)
closing (some l) w =
    if is_closed l w
    then (none, record w { loop = none })
    else (some l, record w { loop = none; closed = l ∷ w.closed })

unfoldable pub close_worker_loop : Worker → Option ℕ × Worker
close_worker_loop w = closing w.loop w

module _ {Engine World : Type 0} (dispose : Engine → World → Bool × World) where
  -- on_worker_process_init: every inherited pool is thrown away, `dispose` being
  -- `sync_engine.dispose(close=False)`, and failures are only logged; then the listener of the logs
  unfoldable pub on_worker_process_init :
      Engine → List Engine → Engine → Worker → World → Process → Worker × World × Process
  on_worker_process_init engine read_engines tasks_engine w world process = (
    reset_worker_loop w,
    (dispose_all dispose (targets engine read_engines tasks_engine) world).1,
    (restart_queue_listener_after_fork process).1,
  )

-- What happens in a worker process: a task, or the signal of its end, which may come twice.
pub data Event : Type 0 where
  task shutdown : Event

-- the loops that are run on and those that are closed
pub record Trace : Type 0 where
  pub used : List ℕ
  pub closings : List ℕ

abbrev pub noted : Option ℕ → List ℕ → List ℕ
noted none ls = ls
noted (some l) ls = l ∷ ls

unfoldable pub ran : (Worker → Trace) → ℕ × Worker → Trace
ran rest (l, w) = record (rest w) { used = l ∷ (rest w).used }

unfoldable pub stopped : (Worker → Trace) → Option ℕ × Worker → Trace
stopped rest (l, w) = record (rest w) { closings = noted l (rest w).closings }

unfoldable pub trace : List Event → Worker → Trace
trace [] w = record { used = []; closings = [] }
trace (task ∷ events) w = ran (trace events) (run_async w)
trace (shutdown ∷ events) w = stopped (trace events) (close_worker_loop w)
