-- ===== src/Repository/Pending.antt =====
-- No method of a repository commits (app/core/repositories/repository_base.py).
use fastapi_project_structur.Common.{
  String, ◌≡◌, refl, ap, ◌∙◌, true, not, Option, none, some, List, [], ◌∷◌, is_empty,
}
use fastapi_project_structur.Repository
use fastapi_project_structur.Repository.{
  Model, Session, Sql, sql_error, done, Outcome, routing_failed, raised, returned, flush, reread,
  db_error, unknown_fields, has_pk, assigned, write, update_found, delete_found, remove,
}
use fastapi_project_structur.Repository.Requests.{
  Op, create, get, get_by_id_or_raise, exists, get_all, count, update, delete, Reply, entity, found,
  deleted, perform, run, continue,
}
use fastapi_project_structur.Repository.Contract.{Documented}
use fastapi_project_structur.Repository.Endings.{
  either, reread_state, db_error_state, replying_state, before_state,
}

module _ {model : Model} {session : Session model} (promised : Documented session) where
  open model use {Key, Value, Row}
  open session use {State}
  open promised use {view, committed, pk, same, Stored}

  flush_keeps : (s : State) → committed ((flush session s).1) ≡ committed s
  unfolding flush
  flush_keeps s =
      either (λ (x : Sql (Unit {0}) × State). committed (x.1)) (session.routing s).read_only refl
        (promised.flush_pending s)

  update_found_pending :
      (id : Key) (payload : List (String × Value)) (s : State) (old : Option Row)
      → committed ((update_found session old id payload s).1) ≡ committed s
  unfolding update_found write
  update_found_pending id payload s none = refl
  update_found_pending id payload s (some old) = either view_of (is_empty payload) refl (
      either view_of (not (is_empty (unknown_fields model payload))) refl
        (either view_of (has_pk model payload) refl kept))
    where
      view_of : Outcome (Option Row) × State → Key → Option Row
      view_of x = committed (x.1)

      kept :
          committed ((db_error session some "UPDATE" (write session id payload old s)).1)
          ≡ committed s
      kept =
          ap committed (
            db_error_state session some "UPDATE" (write session id payload old s)
            ∙ reread_state session (assigned model payload old) _)
          ∙ flush_keeps _
          ∙ promised.assign_pending id (assigned model payload old) s

  delete_found_pending :
      (id : Key) (s : State) (old : Option Row)
      → committed ((delete_found session old id s).1) ≡ committed s
  unfolding delete_found remove
  delete_found_pending id s none = refl
  delete_found_pending id s (some old) =
      ap committed (db_error_state session (λ _. true) "DELETE" _)
      ∙ flush_keeps _
      ∙ promised.delete_pending id s

  -- no method commits
  perform_pending : (op : Op model) (s : State) → committed ((perform session op s).1) ≡ committed s
  unfolding perform Repository.update Repository.delete Repository.create Repository.add
  perform_pending (create payload) s =
      ap committed (
        replying_state session entity _
        ∙ db_error_state session (λ r. r) "CREATE" _
        ∙ reread_state session (model.new payload) _)
      ∙ flush_keeps _
      ∙ promised.add_pending (model.new payload) s
  perform_pending (get id) s = refl
  perform_pending (get_by_id_or_raise id) s = ap committed (replying_state session entity _)
  perform_pending (exists id) s = refl
  perform_pending (get_all skip limit) s = refl
  perform_pending count s = refl
  perform_pending (update id payload) s =
      ap committed (replying_state session found _)
      ∙ update_found_pending id payload s (session.get id s)
  perform_pending (delete id) s =
      ap committed (replying_state session deleted _) ∙ delete_found_pending id s (session.get id s)

  continue_pending :
      (ops : List (Op model)) (s : State) (x : Outcome (Reply model) × State)
      → ((t : State) → committed ((run session ops t).1) ≡ committed t)
      → committed (x.1) ≡ committed s
      → committed ((continue session (run session ops) x).1) ≡ committed s
  unfolding continue
  continue_pending ops s (routing_failed, t) rest h = h
  continue_pending ops s (raised _, t) rest h = h
  continue_pending ops s (returned reply, t) rest h =
      ap committed (before_state session reply (run session ops t)) ∙ rest t ∙ h

  pub run_pending :
      (ops : List (Op model)) (s : State) → committed ((run session ops s).1) ≡ committed s
  unfolding run
  run_pending [] s = refl
  run_pending (op ∷ ops) s =
      continue_pending ops s (perform session op s) (run_pending ops) (perform_pending op s)
