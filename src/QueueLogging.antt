-- ===== src/QueueLogging.antt =====
-- app/utils/logs/queue_logging.py: the bounded queue of log records, and the listener whose thread
-- empties it into the files. A record is a number. QueueListener is the standard library's: its thread
-- ends at the sentinel that stop() puts into the queue, with put_nowait.
pub mod Sound
pub mod Flushed
pub mod Full
use fastapi_project_structur.Common.{
  ℕ, suc, Bool, true, false, ◌&&◌, Option, none, some, List, [], ◌∷◌, ◌++◌, length, eqb, ltb, ◌≡◌,
  if◌then◌else◌,
}

abbrev pub log_queue_maxsize : ℕ
log_queue_maxsize = 10000

pub data Item : Type 0 where
  entry : ℕ → Item
  sentinel : Item

-- A process.
pub record Process : Type 0 where
  pub pid : ℕ
  pub queue : List Item
  -- BoundedQueueHandler.dropped
  pub dropped : ℕ
  -- whether _listener is set, and _listener_pid
  pub listener : Bool
  pub listener_pid : Option ℕ
  -- whether the thread of a listener runs in this process
  pub thread : Bool
  -- the records in the files, of this process and of those that it was forked from before
  pub written : List ℕ

unfoldable pub has_room : Process → Bool
has_room p = ltb (length p.queue) log_queue_maxsize

-- BoundedQueueHandler.enqueue
unfoldable pub enqueue : ℕ → Process → Process
enqueue r p =
    if has_room p
    then record p { queue = p.queue ++ (entry r ∷ []) }
    else record p { dropped = suc p.dropped }

-- The thread takes one item.
unfoldable pub take_item : List Item → Process → Process
take_item [] p = p
take_item (entry r ∷ rest) p = record p { queue = rest; written = p.written ++ (r ∷ []) }
take_item (sentinel ∷ rest) p = record p { queue = rest; thread = false }

unfoldable pub take_one : Process → Process
take_one p = if p.thread then take_item p.queue p else p

unfoldable pub run_listener : Process → Process
run_listener p = record p { listener = true; listener_pid = some p.pid; thread = true }

-- the handler, and whether it has a listener
unfoldable pub start_queue_listener : Option Bool → Process → Bool × Process
start_queue_listener none p = (false, p)
start_queue_listener (some false) p = (false, p)
start_queue_listener (some true) p = if p.listener then (false, p) else (true, run_listener p)

unfoldable pub is_pid : ℕ → Option ℕ → Bool
is_pid pid none = false
is_pid pid (some q) = eqb q pid

-- fork copies the memory of the process, and no thread
unfoldable pub fork : ℕ → Process → Process
fork child p = record p { pid = child; thread = false }

unfoldable pub restart_queue_listener_after_fork : Process → Bool × Process
restart_queue_listener_after_fork p =
    if p.listener
    then if is_pid p.pid p.listener_pid then (false, p) else (true, run_listener p)
    else (false, p)

-- The thread takes what is in the queue, up to the sentinel.
unfoldable pub emptied : List Item → Process → Process
emptied [] p = record p { queue = [] }
emptied (entry r ∷ rest) p = emptied rest (record p { written = p.written ++ (r ∷ []) })
emptied (sentinel ∷ rest) p = record p { queue = rest; thread = false }

-- QueueListener.stop: the sentinel, and the end of the thread. It tells whether it returned: the
-- sentinel does not go into a full queue.
unfoldable pub stop_listener : Process → Bool × Process
stop_listener p =
    if has_room p
    then (
      true,
      if p.thread
          then emptied (p.queue ++ (sentinel ∷ [])) p
          else record p { queue = p.queue ++ (sentinel ∷ []) },
    )
    else (false, p)

-- How a stop ends: with queue.Full, without a word, or with the number of dropped records on stderr.
pub data Ending : Type 0 where
  full silent : Ending
  printed : ℕ → Ending

unfoldable pub report : Bool × Process → Ending × Process
report (false, p) = (full, p)
report (true, p) = (if eqb p.dropped 0 then silent else printed p.dropped, p)

unfoldable pub without_report : Bool × Process → Ending × Process
without_report (false, p) = (full, p)
without_report (true, p) = (silent, p)

unfoldable pub stop_queue_listener : Process → Ending × Process
stop_queue_listener p =
    if p.listener then report (stop_listener (record p { listener = false })) else (silent, p)

unfoldable pub stop_queue_listener_sync : Process → Ending × Process
stop_queue_listener_sync p =
    if p.listener
    then without_report (stop_listener (record p { listener = false }))
    else (silent, p)

unfoldable pub new_process : ℕ → Process
new_process pid = record {
  pid = pid;
  queue = [];
  dropped = 0;
  listener = false;
  listener_pid = none;
  thread = false;
  written = [];
}

-- What can become of a process before its listener is stopped: the records that the queue accepted,
-- the number of those that it refused, and the process. A forked process has an identifier that is
-- not that of the process which started the listener.
pub data Reached : List ℕ → ℕ → Process → Type 0 where
  created : (pid : ℕ) → Reached [] 0 (new_process pid)
  emitted :
      {rs : List ℕ} {n : ℕ} {p : Process} (r : ℕ)
      → Reached rs n p
      → Reached
          (if has_room p then rs ++ (r ∷ []) else rs)
          (if has_room p then n else suc n)
          (enqueue r p)
  taken : {rs : List ℕ} {n : ℕ} {p : Process} → Reached rs n p → Reached rs n (take_one p)
  started :
      {rs : List ℕ} {n : ℕ} {p : Process} (handler : Option Bool)
      → Reached rs n p
      → Reached rs n ((start_queue_listener handler p).1)
  forked :
      {rs : List ℕ} {n : ℕ} {p : Process} (child : ℕ)
      → is_pid child p.listener_pid ≡ false
      → Reached rs n p
      → Reached rs n (fork child p)
  restarted :
      {rs : List ℕ} {n : ℕ} {p : Process}
      → Reached rs n p
      → Reached rs n ((restart_queue_listener_after_fork p).1)
