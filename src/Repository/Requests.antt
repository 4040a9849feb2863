-- ===== src/Repository/Requests.antt =====
-- A handler over a session, as the sequence of repository methods that it calls
-- (app/core/repositories/repository_base.py, app/core/db/session.py).
use fastapi_project_structur.Common.{ℕ, String, Bool, true, false, Option, List, [], ◌∷◌}
use fastapi_project_structur.DbErrors.{DbError, Refusal}
use fastapi_project_structur.Repository
use fastapi_project_structur.Repository.Dependencies.{Dependency, enter, leave}
use fastapi_project_structur.Repository.{
  Model, Session, Sql, routing_error, sql_error, done, Outcome, routing_failed, raised, returned,
}

-- The database's methods that a request calls, and their replies.
pub data Op (model : Model) : Type 0 where
  create : List (String × model.Value) → Op model
  get get_by_id_or_raise exists : model.Key → Op model
  get_all : (skip limit : ℕ) → Op model
  count : Op model
  update : model.Key → List (String × model.Value) → Op model
  delete : model.Key → Op model

pub data Reply (model : Model) : Type 0 where
  entity : model.Row → Reply model
  found : Option model.Row → Reply model
  deleted present : Bool → Reply model
  listing : List model.Row → Reply model
  number : ℕ → Reply model

-- How a request ends: a ReadOnlyRoutingError, an exception of the repository's, one of the commit's, or
-- its replies.
pub data Ending (model : Model) : Type 0 where
  misrouted : Ending model
  refused : Refusal → Ending model
  failed : DbError → Ending model
  replied : List (Reply model) → Ending model

module _ {model : Model} (session : Session model) where
  open model use {Key, Value, Row}
  open session use {State}

  unfoldable pub replying :
      {A : Type 0} → (A → Reply model) → Outcome A × State → Outcome (Reply model) × State
  replying reply (routing_failed, s) = (routing_failed, s)
  replying reply (raised e, s) = (raised e, s)
  replying reply (returned a, s) = (returned (reply a), s)

  unfoldable pub perform : Op model → State → Outcome (Reply model) × State
  unfolding replying
  perform (create payload) s = replying entity (Repository.create session payload s)
  perform (get id) s = (returned (found (Repository.get_by_id session id s)), s)
  perform (get_by_id_or_raise id) s =
      replying entity (Repository.get_by_id_or_raise session id s, s)
  perform (exists id) s = (returned (present (Repository.exists session id s)), s)
  perform (get_all skip limit) s = (returned (listing (Repository.get_all session skip limit s)), s)
  perform count s = (returned (number (Repository.count session s)), s)
  perform (update id payload) s = replying found (Repository.update session id payload s)
  perform (delete id) s = replying deleted (Repository.delete session id s)

  -- an exception ends the handler
  unfoldable pub before :
      Reply model → Outcome (List (Reply model)) × State → Outcome (List (Reply model)) × State
  before reply (routing_failed, s) = (routing_failed, s)
  before reply (raised e, s) = (raised e, s)
  before reply (returned replies, s) = (returned (reply ∷ replies), s)

  unfoldable pub continue :
      (State → Outcome (List (Reply model)) × State)
      → Outcome (Reply model) × State
      → Outcome (List (Reply model)) × State
  continue rest (routing_failed, s) = (routing_failed, s)
  continue rest (raised e, s) = (raised e, s)
  continue rest (returned reply, s) = before reply (rest s)

  unfoldable pub run : List (Op model) → State → Outcome (List (Reply model)) × State
  run [] s = (returned [], s)
  run (op ∷ ops) s = continue (run ops) (perform op s)

  -- the commit at the end of a handler, and the end of its session
  unfoldable pub committing :
      Dependency → List (Reply model) → Sql (Unit {0}) × State → Ending model × State
  committing dependency replies (routing_error, s) = (misrouted, leave session dependency true s)
  committing dependency replies (sql_error e, s) = (failed e, leave session dependency true s)
  committing dependency replies (done _, s) = (replied replies, leave session dependency false s)

  unfoldable pub ending : Dependency → Outcome (List (Reply model)) × State → Ending model × State
  ending dependency (routing_failed, s) = (misrouted, leave session dependency true s)
  ending dependency (raised e, s) = (refused e, leave session dependency true s)
  ending dependency (returned replies, s) = committing dependency replies (session.commit s)

  -- a handler that commits in its end
  unfoldable pub request : Dependency → List (Op model) → State → Ending model × State
  request dependency ops s = ending dependency (run ops (enter session dependency s))
