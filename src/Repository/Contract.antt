-- ===== src/Repository/Contract.antt =====
-- What SQLAlchemy and the database promise of a session (app/core/repositories, app/core/db).
use fastapi_project_structur.Common.{
  ℕ, ◌≤◌, ◌≡◌, Bool, Option, none, some, List, All, length, is_some, if◌then◌else◌,
}
use fastapi_project_structur.DbRouter.{Info}
use fastapi_project_structur.DbErrors.{DbError}
use fastapi_project_structur.Repository.{Model, Session, Column, routing_error, sql_error, done}

-- a finite map, changed at one key
abbrev pub put :
    {Key Row : Type 0}
    → (Key → Key → Bool)
    → Key
    → Option Row
    → (Key → Option Row)
    → Key
    → Option Row
put same key row rows id = if same key id then row else rows id

-- `view` is what the session's transaction reads, `committed` what any later transaction reads, and
-- `Stored e r` says that r is what the database keeps of the flushed object e.
pub record Documented {model : Model} (session : Session model) : Type 1 where
  pub view : session.State → model.Key → Option model.Row
  pub committed : session.State → model.Key → Option model.Row
  pub pk : model.Row → model.Key
  pub same : model.Key → model.Key → Bool
  pub Stored : model.Row → model.Row → Type 0
  -- the number of the rows
  pub size : (model.Key → Option model.Row) → ℕ
  pub get-view : (id : model.Key) (s : session.State) → session.get id s ≡ view s id
  pub exists-view : (id : model.Key) (s : session.State) → session.exists id s ≡ is_some (view s id)
  pub count-view : (s : session.State) → session.count s ≡ size (view s)
  pub select-view :
      (order : List Column) (skip limit : ℕ) (s : session.State)
      → All (λ r. view s (pk r) ≡ some r) (session.select order skip limit s)
        × (length (session.select order skip limit s) ≤ limit)
  pub set_routing-view : (i : Info) (s : session.State) → view (session.set_routing i s) ≡ view s
  pub set_routing_committed :
      (i : Info) (s : session.State) → committed (session.set_routing i s) ≡ committed s
  pub routing-set_routing :
      (i : Info) (s : session.State) → session.routing (session.set_routing i s) ≡ i
  pub routing-add :
      (e : model.Row) (s : session.State) → session.routing (session.add e s) ≡ session.routing s
  pub routing-assign :
      (id : model.Key) (e : model.Row) (s : session.State)
      → session.routing (session.assign id e s) ≡ session.routing s
  pub routing-delete :
      (id : model.Key) (s : session.State)
      → session.routing (session.delete id s) ≡ session.routing s
  pub view-add :
      (e r : model.Row) (s t : session.State)
      → session.flush (session.add e s) ≡ (done tt, t)
      → session.refresh e t ≡ done r
      → Stored e r × (view t ≡ put same (pk r) (some r) (view s))
  pub view-assign :
      (key : model.Key) (e r : model.Row) (s t : session.State)
      → session.flush (session.assign key e s) ≡ (done tt, t)
      → session.refresh e t ≡ done r
      → Stored e r × (view t ≡ put same key (some r) (view s))
  pub view-delete :
      (key : model.Key) (s t : session.State)
      → session.flush (session.delete key s) ≡ (done tt, t)
      → view t ≡ put same key none (view s)
  pub add_pending : (e : model.Row) (s : session.State) → committed (session.add e s) ≡ committed s
  pub assign_pending :
      (id : model.Key) (e : model.Row) (s : session.State)
      → committed (session.assign id e s) ≡ committed s
  pub delete_pending :
      (id : model.Key) (s : session.State) → committed (session.delete id s) ≡ committed s
  pub flush_pending : (s : session.State) → committed ((session.flush s).1) ≡ committed s
  pub commit_done : (s t : session.State) → session.commit s ≡ (done tt, t) → committed t ≡ view s
  pub commit_failed :
      (e : DbError) (s t : session.State)
      → session.commit s ≡ (sql_error e, t)
      → committed t ≡ committed s
  pub commit_misrouted :
      (s t : session.State) → session.commit s ≡ (routing_error, t) → committed t ≡ committed s
  pub close_committed : (s : session.State) → committed (session.close s) ≡ committed s
  pub rollback_committed : (s : session.State) → committed (session.rollback s) ≡ committed s
