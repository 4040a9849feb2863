-- ===== src/BackgroundTasks.antt =====
-- app/core/middlewares/background_tasks.py: the runner of fire-and-forget tasks. A task is its
-- number; the set of tracked tasks is a list without repetition. A drain awaits, so that it is two
-- events, between which tasks end and callers try to spawn.
pub mod Bounds
use fastapi_project_structur.Common.{
  ℕ, suc, ◌+◌, Bool, true, false, Option, none, some, List, [], ◌∷◌, ◌++◌, eqb, leb, length,
  is_empty, if◌then◌else◌,
}

pub record Runner : Type 0 where
  pub max : ℕ
  pub tasks : List ℕ
  pub closed : Bool
  pub dropped : ℕ
  pub rejected_after_close : ℕ

abbrev pub new_runner : ℕ → Runner
new_runner max = record {
  max = max;
  tasks = [];
  closed = false;
  dropped = 0;
  rejected_after_close = 0;
}

-- set.discard
pub discard : ℕ → List ℕ → List ℕ
discard t [] = []
discard t (u ∷ us) = let rest = discard t us in if eqb u t then rest else u ∷ rest

pub discard_all : List ℕ → List ℕ → List ℕ
discard_all [] us = us
discard_all (t ∷ ts) us = discard t (discard_all ts us)

pub spawn : ℕ → Runner → Bool × Runner
spawn task r =
    if r.closed
    then (false, record r { rejected_after_close = r.rejected_after_close + 1 })
    else if leb r.max (length r.tasks)
    then (false, record r { dropped = r.dropped + 1 })
    else (true, record r { tasks = task ∷ r.tasks })

-- the done callback of a task
pub finished : ℕ → Runner → Runner
finished task r = record r { tasks = discard task r.tasks }

pub close_admission : Runner → Runner
close_admission r = record r { closed = true }

-- drain up to its first await: what it waits for (nothing: it returns)
pub drain_begin : Runner → List ℕ × Runner
drain_begin r = let closed = close_admission r in (closed.tasks, closed)

-- the rest of drain: `done` ended within the timeout, the others are cancelled and awaited; the
-- tasks whose outcome it consumed
pub drain_end : List ℕ → List ℕ → Runner → List ℕ × Runner
drain_end pending done r =
    if is_empty pending
    then ([], r)
    else (done ++ discard_all done pending, record r { tasks = [] })

pub data Event : Type 0 where
  spawned ended : ℕ → Event
  admission_closed : Event

pub step : Event → Runner → Runner
step (spawned t) r = (spawn t r).1
step (ended t) r = finished t r
step admission_closed r = close_admission r

pub run : List Event → Runner → Runner
run [] r = r
run (e ∷ es) r = run es (step e r)

-- drain, with what happens while it waits
pub drain : List Event → List ℕ → Runner → List ℕ × Runner
drain meanwhile done r =
    let (pending, closed) = drain_begin r in drain_end pending done (run meanwhile closed)
