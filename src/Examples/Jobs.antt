-- ===== src/Examples/Jobs.antt =====
-- Examples of worker processes and of reports.
use fastapi_project_structur.Common.{
  ℕ, ◌*◌, ◌/◌, ◌≤◌, ◌<◌, ◌≡◌, ◌↔◌, refl, true, some, [], ◌∷◌, Bool, arith,
}
use fastapi_project_structur.Celery.{Worker, task, shutdown, trace, on_worker_process_init}
use fastapi_project_structur.Celery.Forked.{AreOwn, forked_worker_isolated}
use fastapi_project_structur.Exceptions.{ok}
use fastapi_project_structur.QueueLogging.{
  Process, new_process, run_listener, enqueue, fork, start_queue_listener,
  restart_queue_listener_after_fork, stop_queue_listener, has_room, is_pid, Reached, created,
  emitted, started, forked, restarted,
}
use fastapi_project_structur.QueueLogging.Flushed.{IsFlushed, stop_queue_listener-IsFlushed}
use fastapi_project_structur.Reports.{
  Zone, east, Query, get_daily_sales, local_dates_to_utc, query_of, utc_offset, written_offset,
}
use fastapi_project_structur.Reports.Days.{IsRange, get_daily_sales-days}

-- The parent has run on loop 3; no pool can be thrown away.
abbrev parent : Worker
parent = record { loop = some 3; closed = []; next_loop = 4 }

abbrev dispose : ℕ → Unit {0} → Bool × Unit {0}
dispose engine world = (true, world)

abbrev forked_process : Process
forked_process = fork 2 (enqueue 7 (run_listener (new_process 1)))

forked_worker_isolated_example :
    AreOwn 4
      (trace
        (task ∷ shutdown ∷ task ∷ [])
        ((on_worker_process_init dispose 0 [] 1 parent tt forked_process).0)).used
    × AreOwn 4
        (trace
          (task ∷ shutdown ∷ task ∷ [])
          ((on_worker_process_init dispose 0 [] 1 parent tt forked_process).0)).closings
forked_worker_isolated_example =
    forked_worker_isolated dispose 0 [] 1 parent tt forked_process (task ∷ shutdown ∷ task ∷ [])

-- A zone without offset, whose instants begin with day 0.
abbrev utc : Zone
utc = record { midnight = λ d. d * 86400; offset_at = λ t. east 0 }

utc_day : (d t : ℕ) → (d * 86400 ≤ t) ↔ (d ≤ t / 86400)
utc_day d t = ((λ h. omega (arith, h)), (λ h. omega (arith, h)))

abbrev january : Query
january = record {
  start_at = 738886 * 86400;
  end_at = 738917 * 86400;
  tz_offset = b'+' ∷ b'0' ∷ b'0' ∷ b':' ∷ b'0' ∷ b'0' ∷ [];
}

queried : get_daily_sales utc 738886 738916 ≡ ok january
unfolding get_daily_sales local_dates_to_utc query_of utc_offset written_offset
queried = refl

get_daily_sales-days_example :
    IsRange 738886 738916
    × ((t : ℕ)
        → ((738886 * 86400 ≤ t) × (t < 738917 * 86400))
          ↔ ((738886 ≤ t / 86400) × (t / 86400 ≤ 738916)))
get_daily_sales-days_example =
    get_daily_sales-days utc (λ t. t / 86400) utc_day 738886 738916 january queried

-- Process 1 starts the listener and logs 7, and the child 2 logs 8.
abbrev logged : Process
logged =
    enqueue 8
      (restart_queue_listener_after_fork
        (fork 2 (enqueue 7 ((start_queue_listener (some true) (new_process 1)).1)))).1

logged-Reached : Reached (7 ∷ 8 ∷ []) 0 logged
unfolding enqueue has_room start_queue_listener restart_queue_listener_after_fork fork new_process
    is_pid run_listener
logged-Reached = emitted 8 (restarted (forked 2 refl (emitted 7 (started (some true) (created 1)))))

stop_queue_listener-IsFlushed_example : IsFlushed (7 ∷ 8 ∷ []) 0 logged (stop_queue_listener logged)
unfolding enqueue has_room start_queue_listener restart_queue_listener_after_fork fork new_process
    is_pid run_listener
stop_queue_listener-IsFlushed_example = stop_queue_listener-IsFlushed logged-Reached refl refl
