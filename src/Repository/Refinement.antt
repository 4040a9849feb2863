-- ===== src/Repository/Refinement.antt =====
-- A repository over a session implements a finite map, and a request is one transaction on it
-- (app/core/repositories, app/core/db/session.py).
use fastapi_project_structur.Common.{
  ◌≡◌, refl, sym, ap, ◌∙◌, Bool, true, false, Option, List, if◌then◌else◌,
}
use fastapi_project_structur.DbErrors.{DbError, Refusal}
use fastapi_project_structur.Repository.{
  Model, Session, Sql, routing_error, sql_error, done, Outcome, routing_failed, raised, returned,
}
use fastapi_project_structur.Repository.Requests.{
  Op, Reply, Ending, misrouted, refused, failed, replied, run, request, ending, committing,
}
use fastapi_project_structur.Repository.Dependencies.{
  Dependency, read_only, entered, enter, leave, rolls_back,
}
use fastapi_project_structur.Repository.Contract.{Documented}
use fastapi_project_structur.Repository.Pending.{run_pending}
use fastapi_project_structur.Repository.ReadOnly.{run-same}
use fastapi_project_structur.DbRouter.{mark_read_only}
use fastapi_project_structur.Repository.Steps.{Steps, run-Steps}

module _ {model : Model} {session : Session model} (promised : Documented session) where
  open model use {Key, Value, Row}
  open session use {State}
  open promised use {view, committed, pk, same, Stored}

  -- What a request leaves in the database: all the steps that it replied to, or no change.
  pub data Transacted (rows : Key → Option Row) (ops : List (Op model))
      : Ending model → (Key → Option Row) → Type 0 where
    misrouted_whole : Transacted rows ops misrouted rows
    refused_whole : {e : Refusal} → Transacted rows ops (refused e) rows
    failed_whole : {e : DbError} → Transacted rows ops (failed e) rows
    replied_whole :
        {rs : List (Reply model)} {rows' : Key → Option Row}
        → Steps promised rows ops rs rows'
        → Transacted rows ops (replied rs) rows'

  leave-committed :
      (dependency : Dependency) (raised : Bool) (s : State)
      → committed (leave session dependency raised s) ≡ committed s
  unfolding leave
  leave-committed dependency false s = promised.close_committed s
  leave-committed dependency true s = promised.close_committed _ ∙ rolled (rolls_back dependency)
    where
      rolled : (b : Bool) → committed (if b then session.rollback s else s) ≡ committed s
      rolled true = promised.rollback_committed s
      rolled false = refl

  committing-Transacted :
      (dependency : Dependency) (ops : List (Op model)) (s t : State) (rs : List (Reply model))
      (x : Sql (Unit {0}) × State)
      → Steps promised (committed s) ops rs (view t)
      → committed t ≡ committed s
      → session.commit t ≡ x
      → Transacted
          (committed s)
          ops
          ((committing session dependency rs x).0)
          (committed ((committing session dependency rs x).1))
  unfolding committing
  committing-Transacted dependency ops s t rs (routing_error, u) steps kept h =
      rw (leave-committed dependency true u, promised.commit_misrouted t u h, kept) misrouted_whole
  committing-Transacted dependency ops s t rs (sql_error e, u) steps kept h =
      rw (leave-committed dependency true u, promised.commit_failed e t u h, kept) failed_whole
  committing-Transacted dependency ops s t rs (done tt, u) steps kept h =
      rw (leave-committed dependency false u, promised.commit_done t u h) (replied_whole steps)

  ending-Transacted :
      (dependency : Dependency) (ops : List (Op model)) (s : State)
      (x : Outcome (List (Reply model)) × State)
      → view s ≡ committed s
      → run session ops s ≡ x
      → Transacted
          (committed s)
          ops
          ((ending session dependency x).0)
          (committed ((ending session dependency x).1))
  unfolding ending
  ending-Transacted dependency ops s (routing_failed, t) fresh h =
      rw (leave-committed dependency true t, ← ap (λ p. p.1) h, run_pending promised ops s)
        misrouted_whole
  ending-Transacted dependency ops s (raised e, t) fresh h =
      rw (leave-committed dependency true t, ← ap (λ p. p.1) h, run_pending promised ops s)
        refused_whole
  ending-Transacted dependency ops s (returned rs, t) fresh h =
      committing-Transacted dependency ops s t rs (session.commit t)
        (rw fresh at (run-Steps promised ops s rs t h))
        (rw (← ap (λ p. p.1) h) (run_pending promised ops s)) refl

  enter_fresh :
      (dependency : Dependency) (s : State)
      → view s ≡ committed s
      → view (enter session dependency s) ≡ committed (enter session dependency s)
  unfolding enter
  enter_fresh dependency s fresh =
      promised.set_routing-view _ s ∙ fresh ∙ sym (promised.set_routing_committed _ s)

  enter_committed :
      (dependency : Dependency) (s : State) → committed (enter session dependency s) ≡ committed s
  unfolding enter
  enter_committed dependency s = promised.set_routing_committed _ s

  enter_read_only : (s : State) → (session.routing (enter session read_only s)).read_only ≡ true
  unfolding enter entered mark_read_only
  enter_read_only s = ap (λ i. i.read_only) (promised.routing-set_routing _ s)

  committing-kept :
      (s t : State) (rs : List (Reply model)) (x : Sql (Unit {0}) × State)
      → view s ≡ committed s
      → t ≡ s
      → session.commit t ≡ x
      → committed ((committing session read_only rs x).1) ≡ committed s
  unfolding committing
  committing-kept s t rs (routing_error, u) fresh same_state h =
      leave-committed read_only true u ∙ promised.commit_misrouted t u h ∙ ap committed same_state
  committing-kept s t rs (sql_error e, u) fresh same_state h =
      leave-committed read_only true u ∙ promised.commit_failed e t u h ∙ ap committed same_state
  committing-kept s t rs (done tt, u) fresh same_state h =
      leave-committed read_only false u ∙ promised.commit_done t u h ∙ ap view same_state ∙ fresh

  -- a request in a session that has been marked read-only
  ending-kept :
      (ops : List (Op model)) (s : State) (x : Outcome (List (Reply model)) × State)
      → view s ≡ committed s
      → (session.routing s).read_only ≡ true
      → run session ops s ≡ x
      → committed ((ending session read_only x).1) ≡ committed s
  unfolding ending
  ending-kept ops s (routing_failed, t) fresh marked h =
      leave-committed read_only true t
      ∙ ap (λ p. committed (p.1)) (sym h)
      ∙ run_pending promised ops s
  ending-kept ops s (raised e, t) fresh marked h =
      leave-committed read_only true t
      ∙ ap (λ p. committed (p.1)) (sym h)
      ∙ run_pending promised ops s
  ending-kept ops s (returned rs, t) fresh marked h =
      committing-kept s t rs (session.commit t) fresh (run-same promised ops s t rs marked h) refl

  read_only_kept :
      (dependency : Dependency) (ops : List (Op model)) (s : State)
      → view s ≡ committed s
      → dependency ≡ read_only
      → committed ((request session dependency ops s).1) ≡ committed s
  unfolding request
  read_only_kept dependency ops s fresh e = rw e (
      ending-kept ops (enter session read_only s) _ (enter_fresh read_only s fresh)
        (enter_read_only s) refl
      ∙ enter_committed read_only s)

  -- Whatever methods of BaseRepository a handler calls (create, get_by_id, get_by_id_or_raise,
  -- get_all, count without filters, exists, update, delete), through whichever of the five
  -- session dependencies, the committed rows afterwards are either what they were, if the
  -- handler or its commit raised, a ReadOnlyRoutingError included, or, if it replied, the
  -- result of taking the steps of a finite map, one for each call and with these replies: an
  -- update of a missing row replies none, an empty one the row, any other names known columns
  -- and not the key, a deletion tells whether the row was there, get_all lists rows of the
  -- map, at most as many as its limit. Through the read-only dependency the committed rows
  -- stay what they were. Queries are answered without an error, the session does what its
  -- documentation promises, and it begins with what is committed.
  pub request-Transacted :
      (dependency : Dependency) (ops : List (Op model)) (s : State)
      → view s ≡ committed s
      → Transacted
          (committed s)
          ops
          ((request session dependency ops s).0)
          (committed ((request session dependency ops s).1))
        × (dependency ≡ read_only → committed ((request session dependency ops s).1) ≡ committed s)
  unfolding request
  request-Transacted dependency ops s fresh =
      let entered_state = enter session dependency s in
      (
        rw (enter_committed dependency s) at (
            ending-Transacted dependency ops entered_state (run session ops entered_state)
              (enter_fresh dependency s fresh) refl),
        read_only_kept dependency ops s fresh,
      )
