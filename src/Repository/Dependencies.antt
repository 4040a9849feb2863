-- ===== src/Repository/Dependencies.antt =====
-- app/core/db/session.py: the sessions that handlers and background tasks are given, and how they end.
use fastapi_project_structur.Common.{
  ℕ, Bool, true, false, List, [], ◌∷◌, ◌++◌, ◌+◌, map, if◌then◌else◌,
}
use fastapi_project_structur.DbRouter.{Info, using_writer, mark_read_only}
use fastapi_project_structur.Repository.{Model, Session}

-- get_routed_db_session, get_read_only_db_session, get_writer_db_session, and the two of background
-- tasks: get_background_db_session and background_db_session
pub data Dependency : Type 0 where
  routed read_only writer background background_context : Dependency

-- the new session's routing, before it is handed out
unfoldable pub entered : Dependency → Info → Info
entered routed info = info
entered read_only info = mark_read_only info
entered writer info = using_writer info
entered background info = info
entered background_context info = info

-- whether the generator catches the handler's exception to roll back, before it goes on
unfoldable pub rolls_back : Dependency → Bool
rolls_back routed = true
rolls_back read_only = false
rolls_back writer = false
rolls_back background = true
rolls_back background_context = true

module _ {model : Model} (session : Session model) where
  -- the session as the dependency hands it out
  unfoldable pub enter : Dependency → session.State → session.State
  enter dependency s = session.set_routing (entered dependency (session.routing s)) s

  unfoldable pub leave : Dependency → (raised : Bool) → session.State → session.State
  leave dependency false s = session.close s
  leave dependency true s = session.close (if rolls_back dependency then session.rollback s else s)

-- the engines of one process, by the names that dispose_engine gives them
unfoldable pub readers : {Engine : Type 0} → ℕ → List Engine → List (ℕ × Engine)
readers index [] = []
readers index (e ∷ es) = (index, e) ∷ readers (index + 1) es

pub data Name : Type 0 where
  writer_engine background_engine : Name
  reader : ℕ → Name

unfoldable pub targets : {Engine : Type 0} → Engine → List Engine → Engine → List (Name × Engine)
targets engine read_engines tasks_engine =
    ((writer_engine, engine) ∷ map (λ r. (reader (r.0), r.1)) (readers 0 read_engines))
    ++ (background_engine, tasks_engine) ∷ []

-- every engine is tried; the names of those whose disposal raised
module _ {Engine World : Type 0} (dispose : Engine → World → Bool × World) where
  unfoldable pub dispose_step :
      Name → Bool × World → (World → List Name × World) → List Name × World
  dispose_step name (true, w) rest = rest w
  dispose_step name (false, w) rest = (name ∷ (rest w).0, (rest w).1)

  unfoldable pub dispose_all : List (Name × Engine) → World → List Name × World
  dispose_all [] w = ([], w)
  dispose_all ((name, e) ∷ rest) w = dispose_step name (dispose e w) (dispose_all rest)

  unfoldable pub dispose_engine : Engine → List Engine → Engine → World → List Name × World
  dispose_engine engine read_engines tasks_engine w =
      dispose_all (targets engine read_engines tasks_engine) w
