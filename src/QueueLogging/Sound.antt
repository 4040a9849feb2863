-- ===== src/QueueLogging/Sound.antt =====
-- Where the accepted records are: in the files or in the queue (app/utils/logs/queue_logging.py).
use mathlib.Core.List.{append_assoc}
use fastapi_project_structur.Common.{
  ℕ, suc, ◌+◌, ◌≤◌, ◌<◌, ◌≡◌, refl, sym, ap, ◌∙◌, inl, inr, Bool, true, false, Option, none, some,
  List, [], ◌∷◌, ◌++◌, map, length, length-append, ltb→lt, arith, Bool-cases, if◌then◌else◌,
}
use fastapi_project_structur.QueueLogging.{
  log_queue_maxsize, Item, entry, sentinel, Process, has_room, enqueue, take_item, take_one,
  run_listener, start_queue_listener, is_pid, fork, restart_queue_listener_after_fork, new_process,
  Reached, created, emitted, taken, started, forked, restarted,
}

map-snoc : (rs : List ℕ) (r : ℕ) → map entry rs ++ (entry r ∷ []) ≡ map entry (rs ++ (r ∷ []))
map-snoc [] r = refl
map-snoc (q ∷ rs) r = ap (λ es. entry q ∷ es) (map-snoc rs r)

pub record IsSound (rs : List ℕ) (n : ℕ) (p : Process) : Type 0 where
  pub pending : List ℕ
  pub queued : p.queue ≡ map entry pending
  pub kept : rs ≡ p.written ++ pending
  pub counted : p.dropped ≡ n
  pub fits : length p.queue ≤ log_queue_maxsize
  pub reads : is_pid p.pid p.listener_pid ≡ true → p.thread ≡ true

enqueue-IsSound :
    (r : ℕ) (rs : List ℕ) (n : ℕ) (p : Process)
    → IsSound rs n p
    → IsSound
        (if has_room p then rs ++ (r ∷ []) else rs)
        (if has_room p then n else suc n)
        (enqueue r p)
unfolding enqueue has_room
enqueue-IsSound r rs n p h = elim (Bool-cases (has_room p)) [
  | inl e ↦ rw e (accepted e)
  | inr e ↦ rw e refused
]
  where
    refused : IsSound rs (suc n) (record p { dropped = suc p.dropped })
    refused = record {
      pending = h.pending;
      queued = h.queued;
      kept = h.kept;
      counted = ap suc h.counted;
      fits = h.fits;
      reads = h.reads;
    }

    accepted :
        has_room p ≡ true
        → IsSound (rs ++ (r ∷ [])) n (record p { queue = p.queue ++ (entry r ∷ []) })
    accepted e = record {
      pending = h.pending ++ (r ∷ []);
      queued = ap (λ q. q ++ (entry r ∷ [])) h.queued ∙ map-snoc h.pending r;
      kept = ap (λ q. q ++ (r ∷ [])) h.kept ∙ append_assoc p.written h.pending (r ∷ []);
      counted = h.counted;
      fits = grows (length p.queue) _ (ltb→lt _ _ e) (length-append p.queue (entry r ∷ []));
      reads = h.reads;
    }
      where
        grows : (a b : ℕ) → a < log_queue_maxsize → b ≡ a + 1 → b ≤ log_queue_maxsize
        grows a b less same = omega (arith, less, same)

take_item-IsSound :
    (queue : List Item) (pending rs : List ℕ) (n : ℕ) (p : Process)
    → queue ≡ map entry pending
    → rs ≡ p.written ++ pending
    → length queue ≤ log_queue_maxsize
    → IsSound rs n p
    → IsSound rs n (take_item queue p)
unfolding take_item
take_item-IsSound [] pending rs n p e kept fits h = h
take_item-IsSound (entry r ∷ rest) [] rs n p e kept fits h = absurd (cc e)
take_item-IsSound (entry r ∷ rest) (q ∷ pending) rs n p e kept fits h = record {
  pending = pending;
  queued = cc e;
  kept = kept ∙ moved (cc e);
  counted = h.counted;
  fits = omega (arith, fits);
  reads = h.reads;
}
  where
    moved : r ≡ q → p.written ++ (q ∷ pending) ≡ (p.written ++ (r ∷ [])) ++ pending
    moved same = rw same (sym (append_assoc p.written (q ∷ []) pending))
take_item-IsSound (sentinel ∷ rest) [] rs n p e kept fits h = absurd (cc e)
take_item-IsSound (sentinel ∷ rest) (q ∷ pending) rs n p e kept fits h = absurd (cc e)

run_listener-IsSound :
    (rs : List ℕ) (n : ℕ) (p : Process) → IsSound rs n p → IsSound rs n (run_listener p)
unfolding run_listener
run_listener-IsSound rs n p h = record {
  pending = h.pending;
  queued = h.queued;
  kept = h.kept;
  counted = h.counted;
  fits = h.fits;
  reads = λ e. refl;
}

new_process-IsSound : (pid : ℕ) → IsSound [] 0 (new_process pid)
unfolding new_process is_pid
new_process-IsSound pid = record {
  pending = [];
  queued = refl;
  kept = refl;
  counted = refl;
  fits = omega arith;
  reads = λ e. absurd (cc e);
}

fork-IsSound :
    (child : ℕ) (rs : List ℕ) (n : ℕ) (p : Process)
    → is_pid child p.listener_pid ≡ false
    → IsSound rs n p
    → IsSound rs n (fork child p)
unfolding fork
fork-IsSound child rs n p other h = record {
  pending = h.pending;
  queued = h.queued;
  kept = h.kept;
  counted = h.counted;
  fits = h.fits;
  reads = λ e. absurd (cc (e, other));
}

either : {A : Type 0} (P : A → Type 0) (b : Bool) (x y : A) → P x → P y → P (if b then x else y)
either P true x y h k = h
either P false x y h k = k

take_one-IsSound : (rs : List ℕ) (n : ℕ) (p : Process) → IsSound rs n p → IsSound rs n (take_one p)
unfolding take_one
take_one-IsSound rs n p h =
    either (IsSound rs n) p.thread _ _
      (take_item-IsSound p.queue h.pending rs n p h.queued h.kept h.fits h) h

started-IsSound :
    (handler : Option Bool) (rs : List ℕ) (n : ℕ) (p : Process)
    → IsSound rs n p
    → IsSound rs n ((start_queue_listener handler p).1)
unfolding start_queue_listener
started-IsSound none rs n p h = h
started-IsSound (some false) rs n p h = h
started-IsSound (some true) rs n p h =
    either (λ (r : Bool × Process). IsSound rs n (r.1)) p.listener _ _ h
      (run_listener-IsSound rs n p h)

restarted-IsSound :
    (rs : List ℕ) (n : ℕ) (p : Process)
    → IsSound rs n p
    → IsSound rs n ((restart_queue_listener_after_fork p).1)
unfolding restart_queue_listener_after_fork
restarted-IsSound rs n p h =
    either (λ (r : Bool × Process). IsSound rs n (r.1)) p.listener _ _
      (either (λ (r : Bool × Process). IsSound rs n (r.1)) (is_pid p.pid p.listener_pid) _ _ h
        (run_listener-IsSound rs n p h))
      h

pub Reached-IsSound : {rs : List ℕ} {n : ℕ} {p : Process} → Reached rs n p → IsSound rs n p
Reached-IsSound (created pid) = new_process-IsSound pid
Reached-IsSound (emitted r h) = enqueue-IsSound r _ _ _ (Reached-IsSound h)
Reached-IsSound (taken h) = take_one-IsSound _ _ _ (Reached-IsSound h)
Reached-IsSound (started handler h) = started-IsSound handler _ _ _ (Reached-IsSound h)
Reached-IsSound (forked child other h) = fork-IsSound child _ _ _ other (Reached-IsSound h)
Reached-IsSound (restarted h) = restarted-IsSound _ _ _ (Reached-IsSound h)
