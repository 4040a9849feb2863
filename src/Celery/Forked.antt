-- ===== src/Celery/Forked.antt =====
-- A forked worker process and the loop of its parent (app/celery/task.py, worker_lifecycle.py).
use fastapi_project_structur.Common.{
  ℕ, suc, ◌≤◌, ◌≡◌, refl, Bool, true, false, Option, none, some, List, [], ◌∷◌, All, arith,
  if◌then◌else◌,
}
use fastapi_project_structur.QueueLogging.{Process}
use fastapi_project_structur.Celery.{
  Worker, is_closed, new_loop, running, run_async, reset_worker_loop, closing, close_worker_loop,
  on_worker_process_init, Event, task, shutdown, Trace, noted, ran, stopped, trace,
}

module _ (fork : ℕ) where
  -- loops that were made after the fork
  abbrev pub AreOwn : List ℕ → Type 0
  AreOwn = All (λ l. fork ≤ l)

  IsOwnLoop : Option ℕ → Type 0
  IsOwnLoop none = Unit
  IsOwnLoop (some l) = fork ≤ l

  abbrev IsOwn : Worker → Type 0
  IsOwn w = IsOwnLoop w.loop × (fork ≤ w.next_loop)

  abbrev IsOwnTrace : Trace → Type 0
  IsOwnTrace t = AreOwn t.used × AreOwn t.closings

  later : (n : ℕ) → fork ≤ n → fork ≤ suc n
  later n h = omega (arith, h)

  running-IsOwn :
      (o : Option ℕ) (w : Worker)
      → w.loop ≡ o
      → IsOwn w
      → (fork ≤ (running o w).0) × IsOwn ((running o w).1)
  unfolding running new_loop IsOwnLoop
  running-IsOwn none w e (own, next) = (next, (next, later _ next))
  running-IsOwn (some l) w e (own, next) = choose (is_closed l w) (rw e at own)
    where
      choose :
          (b : Bool)
          → fork ≤ l
          → (fork ≤ (if b then new_loop w else (l, w)).0)
            × IsOwn ((if b then new_loop w else (l, w)).1)
      choose true h = (next, (next, later _ next))
      choose false h = (h, (own, next))

  closing-IsOwn :
      (o : Option ℕ) (w : Worker) (ls : List ℕ)
      → w.loop ≡ o
      → IsOwn w
      → AreOwn ls
      → AreOwn (noted ((closing o w).0) ls) × IsOwn ((closing o w).1)
  unfolding closing IsOwnLoop
  closing-IsOwn none w ls e (own, next) h = (h, (own, next))
  closing-IsOwn (some l) w ls e (own, next) h = choose (is_closed l w) (rw e at own)
    where
      result : Bool → Option ℕ × Worker
      result b =
          if b
          then (none, record w { loop = none })
          else (some l, record w { loop = none; closed = l ∷ w.closed })

      choose : (b : Bool) → fork ≤ l → AreOwn (noted ((result b).0) ls) × IsOwn ((result b).1)
      choose true k = (h, (tt, next))
      choose false k = ((k, h), (tt, next))

  trace-IsOwn : (events : List Event) (w : Worker) → IsOwn w → IsOwnTrace (trace events w)
  unfolding trace ran stopped run_async close_worker_loop
  trace-IsOwn [] w h = (tt, tt)
  trace-IsOwn (task ∷ events) w h =
      let (fresh, own) = running-IsOwn w.loop w refl h in
      let (used, closings) = trace-IsOwn events _ own in ((fresh, used), closings)
  trace-IsOwn (shutdown ∷ events) w h =
      let (_, own) = closing-IsOwn w.loop w [] refl h tt in
      let (used, closings) = trace-IsOwn events _ own in
      let (noted_own, _) = closing-IsOwn w.loop w _ refl h closings in (used, noted_own)

module _ {Engine World : Type 0} (dispose : Engine → World → Bool × World) where
  -- A worker process that has been initialised after the fork never runs on and never closes
  -- an event loop that was made before the fork, whatever tasks run and whatever signals of
  -- its end arrive, even if no inherited pool can be thrown away.
  pub forked_worker_isolated :
      (engine : Engine) (read_engines : List Engine) (tasks_engine : Engine) (w : Worker)
      (world : World) (process : Process) (events : List Event)
      → AreOwn w.next_loop
          (trace events (
            (on_worker_process_init dispose engine read_engines tasks_engine w world
              process).0)).used
        × AreOwn w.next_loop
            (trace events (
              (on_worker_process_init dispose engine read_engines tasks_engine w world
                process).0)).closings
  unfolding on_worker_process_init reset_worker_loop IsOwnLoop
  forked_worker_isolated engine read_engines tasks_engine w world process events =
      trace-IsOwn w.next_loop events _ (tt, omega arith)
