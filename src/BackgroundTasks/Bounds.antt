-- ===== src/BackgroundTasks/Bounds.antt =====
-- Bounds and accounts of the runner, and its drain (app/core/middlewares/background_tasks.py).
use fastapi_project_structur.Common.{
  ℕ, suc, ◌+◌, ◌≤◌, ◌≡◌, refl, ◌∙◌, inl, inr, true, false, ◌||◌, List, [], ◌∷◌, ◌++◌, arith, eqb,
  any, All, length, Bool-cases, if◌then◌else◌,
}
use fastapi_project_structur.BackgroundTasks.{
  Runner, new_runner, discard, discard_all, spawn, finished, close_admission, drain_begin,
  drain_end, Event, spawned, ended, admission_closed, step, run, drain,
}

length-discard : (t : ℕ) (us : List ℕ) → length (discard t us) ≤ length us
unfolding discard
length-discard t [] = omega arith
length-discard t (u ∷ us) = ground (arith, length-discard t us)

step-bounded :
    (e : Event) (r : Runner)
    → length r.tasks ≤ r.max
    → (length (step e r).tasks ≤ r.max) × ((step e r).max ≡ r.max)
unfolding step spawn finished close_admission
step-bounded (spawned t) r h = ground (arith, h)
step-bounded (ended t) r h = (omega (arith, h, length-discard t r.tasks), refl)
step-bounded admission_closed r h = (h, refl)

run-bounded :
    (es : List Event) (r : Runner) → length r.tasks ≤ r.max → length (run es r).tasks ≤ r.max
unfolding run
run-bounded [] r h = h
run-bounded (e ∷ es) r h =
    let (bound, same) = step-bounded e r h in
    let rest = run-bounded es (step e r) (omega (arith, bound, same)) in omega (arith, rest, same)

-- A runner never tracks more tasks than its limit, after any spawns, ends of tasks and
-- closings.
pub run-max : (max : ℕ) (es : List Event) → length (run es (new_runner max)).tasks ≤ max
run-max max es = run-bounded es (new_runner max) (omega arith)

-- How many of the events ask for a task.
abbrev pub asked : List Event → ℕ
asked [] = 0
asked (spawned t ∷ es) = suc (asked es)
asked (_ ∷ es) = asked es

-- How many of them are accepted.
abbrev pub accepted : List Event → Runner → ℕ
accepted [] r = 0
accepted (spawned t ∷ es) r =
    let rest = accepted es (step (spawned t) r) in if (spawn t r).0 then suc rest else rest
accepted (e ∷ es) r = accepted es (step e r)

-- Every task that a runner is asked to spawn is counted once: the accepted ones, and what the
-- counts of dropped and of rejected tasks have grown by, add up to the number asked for.
pub run-accounts :
    (es : List Event) (r : Runner)
    → accepted es r + (run es r).dropped + (run es r).rejected_after_close
      ≡ asked es + r.dropped + r.rejected_after_close
unfolding run step spawn finished close_admission
run-accounts [] r = omega arith
run-accounts (spawned t ∷ es) r =
    let ih = run-accounts es (step (spawned t) r) in ground (arith, ih)
run-accounts (ended t ∷ es) r = run-accounts es (finished t r)
run-accounts (admission_closed ∷ es) r = run-accounts es (close_admission r)

-- While the admission is closed, no task is added.
Among : List ℕ → List ℕ → Type 0
Among us ts = All (λ t. any (eqb t) us ≡ true) ts

discard-Among : (us : List ℕ) (t : ℕ) (ts : List ℕ) → Among us ts → Among us (discard t ts)
unfolding discard Among
discard-Among us t [] h = tt
discard-Among us t (u ∷ ts) (h, hs) = elim (Bool-cases (eqb u t)) [
  | inl e ↦ rw e (discard-Among us t ts hs)
  | inr e ↦ rw e (h, discard-Among us t ts hs)
]

spawn-closed :
    (us : List ℕ) (t : ℕ) (r : Runner)
    → r.closed ≡ true
    → Among us r.tasks
    → Among us (spawn t r).1.tasks × ((spawn t r).1.closed ≡ true)
unfolding spawn
spawn-closed us t r c h = ground (arith, c, h)

closed-Among :
    (us : List ℕ) (es : List Event) (r : Runner)
    → r.closed ≡ true
    → Among us r.tasks
    → Among us (run es r).tasks × ((run es r).closed ≡ true)
unfolding run step spawn finished close_admission
closed-Among us [] r c h = (h, c)
closed-Among us (spawned t ∷ es) r c h =
    let (among, shut) = spawn-closed us t r c h in closed-Among us es (spawn t r).1 shut among
closed-Among us (ended t ∷ es) r c h =
    closed-Among us es (finished t r) c (discard-Among us t r.tasks h)
closed-Among us (admission_closed ∷ es) r c h = closed-Among us es (close_admission r) refl h

Among-weaken : (u : ℕ) (us ts : List ℕ) → Among us ts → Among (u ∷ us) ts
unfolding Among
Among-weaken u us [] h = tt
Among-weaken u us (t ∷ ts) (h, hs) = (ground (arith, h), Among-weaken u us ts hs)

Among-self : (ts : List ℕ) → Among ts ts
unfolding Among
Among-self [] = tt
Among-self (t ∷ ts) = (ground arith, Among-weaken t ts ts (Among-self ts))

Among-nil : (ts : List ℕ) → Among [] ts → ts ≡ []
unfolding Among
Among-nil [] h = refl
Among-nil (t ∷ ts) (h, hs) = ground (arith, h)

any-discard :
    (t u : ℕ) (ts : List ℕ) → eqb t u ≡ false → any (eqb t) (discard u ts) ≡ any (eqb t) ts
unfolding discard
any-discard t u [] h = refl
any-discard t u (v ∷ ts) h = ground (arith, h, any-discard t u ts h)

any-discard_all :
    (t : ℕ) (us ts : List ℕ)
    → any (eqb t) us ≡ false
    → any (eqb t) (discard_all us ts) ≡ any (eqb t) ts
unfolding discard_all
any-discard_all t [] ts h = refl
any-discard_all t (u ∷ us) ts h =
    let one = any-discard t u (discard_all us ts) in
    let rest = any-discard_all t us ts in ground (arith, h, one, rest)

any-append : (t : ℕ) (us ts : List ℕ) → any (eqb t) (us ++ ts) ≡ (any (eqb t) us || any (eqb t) ts)
any-append t [] ts = refl
any-append t (u ∷ us) ts = ground (arith, any-append t us ts)

any-consumed :
    (t : ℕ) (done pending : List ℕ)
    → any (eqb t) pending ≡ true
    → any (eqb t) (done ++ discard_all done pending) ≡ true
any-consumed t done pending h = elim (Bool-cases (any (eqb t) done)) [
  | inl e ↦ any-append t done (discard_all done pending) ∙ rw e refl
  | inr e ↦
      any-append t done (discard_all done pending) ∙ rw (e, any-discard_all t done pending e) h
]

Among-consumed :
    (done pending ts : List ℕ) → Among pending ts → Among (done ++ discard_all done pending) ts
unfolding Among
Among-consumed done pending [] h = tt
Among-consumed done pending (t ∷ ts) (h, hs) =
    (any-consumed t done pending h, Among-consumed done pending ts hs)

drain_end_complete :
    (pending done : List ℕ) (r : Runner)
    → Among pending r.tasks
    → ((drain_end pending done r).1.tasks ≡ [])
      × Among (drain_end pending done r).0 r.tasks
      × Among (drain_end pending done r).0 pending
      × ((drain_end pending done r).1.closed ≡ r.closed)
unfolding drain_end
drain_end_complete [] done r h = (Among-nil r.tasks h, h, Among-self [], refl)
drain_end_complete (p ∷ ps) done r h = (
  refl,
  Among-consumed done (p ∷ ps) r.tasks h,
  Among-consumed done (p ∷ ps) (p ∷ ps) (Among-self (p ∷ ps)),
  refl,
)

-- After a drain, whatever ends or is spawned while it waits, no task is tracked and the runner
-- is closed; and the tasks whose outcome it has consumed include every task tracked when it
-- began and every task still tracked when its wait was over.
pub drain_complete :
    (meanwhile : List Event) (done : List ℕ) (r : Runner)
    → ((drain meanwhile done r).1.tasks ≡ [])
      × ((drain meanwhile done r).1.closed ≡ true)
      × All (λ t. any (eqb t) (drain meanwhile done r).0 ≡ true) r.tasks
      × All
          (λ t. any (eqb t) (drain meanwhile done r).0 ≡ true)
          (run meanwhile (close_admission r)).tasks
unfolding drain drain_begin Among close_admission
drain_complete meanwhile done r =
    let shut = close_admission r in
    let (among, closed) = closed-Among r.tasks meanwhile shut refl (Among-self r.tasks) in
    let (none_left, later, all, same) =
      drain_end_complete r.tasks done (run meanwhile shut) among in
    (none_left, same ∙ closed, all, later)
