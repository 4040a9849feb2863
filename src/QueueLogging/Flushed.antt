-- ===== src/QueueLogging/Flushed.antt =====
-- What becomes of the records that are logged (app/utils/logs/queue_logging.py).
use mathlib.Core.List.{append_assoc, append-nil}
use fastapi_project_structur.Common.{
  ℕ, ◌≤◌, ◌<◌, ◌≡◌, sym, ap, ◌∙◌, ◌⊎◌, inl, inr, true, false, List, [], ◌∷◌, ◌++◌, map, length, eqb,
  ltb, ltb→lt, arith, Bool-cases, if◌then◌else◌,
}
use fastapi_project_structur.QueueLogging.{
  log_queue_maxsize, entry, sentinel, Process, has_room, is_pid, emptied, stop_listener, Ending,
  full, silent, printed, report, stop_queue_listener, Reached,
}
use fastapi_project_structur.QueueLogging.Sound.{IsSound, Reached-IsSound}

emptied_lem :
    (rs : List ℕ) (p : Process)
    → emptied (map entry rs ++ (sentinel ∷ [])) p
      ≡ record p { queue = []; written = p.written ++ rs; thread = false }
unfolding emptied
emptied_lem [] p =
    ap (λ w. record p { queue = []; written = w; thread = false }) (sym (append-nil p.written))
emptied_lem (r ∷ rs) p =
    emptied_lem rs (record p { written = p.written ++ (r ∷ []) })
    ∙ ap (λ w. record p { queue = []; written = w; thread = false })
        (append_assoc p.written (r ∷ []) rs)

-- What a stop leaves: with room in the queue for the sentinel, every accepted record is in the files, in
-- its order, and the refused ones are reported; with a full queue nothing more is written.
abbrev pub IsFlushed : (rs : List ℕ) (n : ℕ) (p : Process) → Ending × Process → Type 0
IsFlushed rs n p (ending, after) =
    ((length p.queue < log_queue_maxsize)
      × (ending ≡ (if eqb n 0 then silent else printed n))
      × (after ≡ record p { queue = []; listener = false; thread = false; written = rs }))
    ⊎ ((length p.queue ≡ log_queue_maxsize)
        × (ending ≡ full)
        × (after ≡ record p { listener = false }))

-- A process whose listener is set, as its stop sees it.
abbrev unset : Process → Process
unset p = record p { listener = false }

stop-set :
    (p : Process) → p.listener ≡ true → stop_queue_listener p ≡ report (stop_listener (unset p))
unfolding stop_queue_listener
stop-set p set = ap (λ b. if b then report (stop_listener (unset p)) else (silent, p)) set

stop_listener-room :
    (rs : List ℕ) (n : ℕ) (p : Process)
    → has_room p ≡ true
    → p.thread ≡ true
    → IsSound rs n p
    → stop_listener (unset p)
      ≡ (true, record p { queue = []; listener = false; thread = false; written = rs })
unfolding stop_listener has_room
stop_listener-room rs n p room reads h =
    ap
      (λ b.
        if b
        then (
          true,
          if p.thread
              then emptied (p.queue ++ (sentinel ∷ [])) (unset p)
              else record (unset p) { queue = p.queue ++ (sentinel ∷ []) },
        )
        else (false, unset p))
      room
    ∙ ap
        (λ b. (
          true,
          if b
              then emptied (p.queue ++ (sentinel ∷ [])) (unset p)
              else record (unset p) { queue = p.queue ++ (sentinel ∷ []) },
        ))
        reads
    ∙ ap (λ q. (true, emptied (q ++ (sentinel ∷ [])) (unset p))) h.queued
    ∙ ap (λ after. (true, after)) (emptied_lem h.pending (unset p))
    ∙ ap (λ w. (true, record p { queue = []; listener = false; thread = false; written = w }))
        (sym h.kept)

stop_listener-full : (p : Process) → has_room p ≡ false → stop_listener (unset p) ≡ (false, unset p)
unfolding stop_listener has_room
stop_listener-full p no_room =
    ap
      (λ b.
        if b
        then (
          true,
          if p.thread
              then emptied (p.queue ++ (sentinel ∷ [])) (unset p)
              else record (unset p) { queue = p.queue ++ (sentinel ∷ []) },
        )
        else (false, unset p))
      no_room

-- However records were logged, the listener's thread took them, the listener was started, the
-- process was forked, under another identifier than that of the process which started the
-- listener, and the listener was restarted: if the listener is set and was started in this
-- process, then its stop writes every record that the queue had accepted, in its order, unsets
-- the listener, ends its thread, and reports the number of the refused ones unless it is 0,
-- provided that the queue has room for the sentinel. If the queue is full, the stop ends with
-- queue.Full, and beyond unsetting the listener it changes nothing.
pub stop_queue_listener-IsFlushed :
    {rs : List ℕ} {n : ℕ} {p : Process}
    → Reached rs n p
    → p.listener ≡ true
    → is_pid p.pid p.listener_pid ≡ true
    → IsFlushed rs n p (stop_queue_listener p)
unfolding report has_room
stop_queue_listener-IsFlushed {rs} {n} {p} reached set own =
    let h = Reached-IsSound reached in
    elim (Bool-cases (has_room p)) [
      | inl room ↦
          let stopped =
            stop-set p set ∙ ap report (stop_listener-room rs n p room (h.reads own) h) in
          inl (
            ltb→lt _ _ room,
            ap (λ r. r.0) stopped ∙ ap (λ d. if eqb d 0 then silent else printed d) h.counted,
            ap (λ r. r.1) stopped,
          )
      | inr no_room ↦
          let stopped = stop-set p set ∙ ap report (stop_listener-full p no_room) in
          inr (filled _ no_room h.fits, ap (λ r. r.0) stopped, ap (λ r. r.1) stopped)
    ]
  where
    filled :
        (a : ℕ) → ltb a log_queue_maxsize ≡ false → a ≤ log_queue_maxsize → a ≡ log_queue_maxsize
    filled a h k = ground arith
