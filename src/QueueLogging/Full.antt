-- ===== src/QueueLogging/Full.antt =====
-- A queue can be full when its listener is stopped (app/utils/logs/queue_logging.py).
use fastapi_project_structur.Common.{
  ℕ, zero, suc, ◌≤◌, ◌<◌, ◌≡◌, refl, inl, inr, true, some, List, [], ◌∷◌, ◌++◌, length,
  length-append, ltb, arith,
}
use fastapi_project_structur.QueueLogging.{
  log_queue_maxsize, entry, Process, has_room, enqueue, run_listener, start_queue_listener, is_pid,
  full, stop_queue_listener, new_process, Reached, created, emitted, started,
}
use fastapi_project_structur.QueueLogging.Flushed.{stop_queue_listener-IsFlushed}

-- A process whose listener is its own, with k records in its queue.
record Filled (k : ℕ) : Type 0 where
  rs : List ℕ
  process : Process
  reached : Reached rs 0 process
  set : process.listener ≡ true
  own : is_pid process.pid process.listener_pid ≡ true
  size : length process.queue ≡ k

emitted-room :
    {rs : List ℕ} (p : Process)
    → has_room p ≡ true
    → Reached rs 0 p
    → Reached (rs ++ (0 ∷ [])) 0 (record p { queue = p.queue ++ (entry 0 ∷ []) })
unfolding enqueue
emitted-room p room r = rw room at (emitted 0 r)

fill : (k : ℕ) → k ≤ log_queue_maxsize → Filled k
unfolding start_queue_listener run_listener new_process is_pid has_room
fill zero h = record {
  rs = [];
  process = (start_queue_listener (some true) (new_process 1)).1;
  reached = started (some true) (created 1);
  set = refl;
  own = refl;
  size = refl;
}
fill (suc k) h = next (fill k (omega (arith, h)))
  where
    less : (a : ℕ) → a ≡ k → ltb a log_queue_maxsize ≡ true
    less a same = ground (arith, h)

    next : Filled k → Filled (suc k)
    next f = record {
      rs = f.rs ++ (0 ∷ []);
      process = record f.process { queue = f.process.queue ++ (entry 0 ∷ []) };
      reached = emitted-room f.process (less _ f.size) f.reached;
      set = f.set;
      own = f.own;
      size = omega (arith, length-append f.process.queue (entry 0 ∷ []), f.size);
    }

full_when : Filled log_queue_maxsize → (p : Process) × ((stop_queue_listener p).0 ≡ full)
full_when f = elim (stop_queue_listener-IsFlushed f.reached f.set f.own) [
  | inl (room, printed_end, after) ↦ absurd (crowded _ room f.size)
  | inr (size, ending, after) ↦ (f.process, ending)
]
  where
    crowded : (a : ℕ) → a < log_queue_maxsize → a ≡ log_queue_maxsize → ⊥
    crowded a less same = omega (arith, less, same)

-- There is a process whose stop ends with queue.Full.
stop_queue_listener-full : (p : Process) × ((stop_queue_listener p).0 ≡ full)
stop_queue_listener-full = full_when (fill log_queue_maxsize (omega arith))
