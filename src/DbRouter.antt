-- ===== src/DbRouter.antt =====
-- app/core/db/router.py: which engine executes a statement of a session, and what a read-only
-- session refuses. The engines are the writer and the readers by their index; `Session.info` is a
-- record. What the driver does with a statement on an engine is a parameter.
pub mod Statement
pub mod Paths
pub mod Readable
use fastapi_project_structur.Common.{
  ℕ, ◌+◌, ◌%◌, Bool, true, false, not, ◌&&◌, ◌||◌, Option, none, some, List, [], ◌∷◌, ◌++◌, eqb,
  is_some, any, if◌then◌else◌,
}
use Statement.{Clause, update_base, select, text, other, statement_is_readable}

pub data Engine : Type 0 where
  writer : Engine
  reader : ℕ → Engine

pub record DatabaseRouter : Type 0 where
  pub readers : ℕ
  pub sticky_after_write : Bool
  -- the position of itertools.cycle(range(len(readers)))
  pub cursor : ℕ

pub next_reader : DatabaseRouter → Engine × DatabaseRouter
next_reader router =
    if eqb router.readers 0
    then (writer, router)
    else (reader router.cursor, record router { cursor = (router.cursor + 1) % router.readers })

pub record Info : Type 0 where
  pub writer_pinned : Bool
  pub reader_pinned : Option Engine
  pub read_only : Bool

abbrev pub new_session : Info
new_session = record { writer_pinned = false; reader_pinned = none; read_only = false }

pub using_writer : Info → Info
using_writer info = record info { writer_pinned = true }

unfoldable pub mark_read_only : Info → Info
mark_read_only info = record info { read_only = true }

pub is_locking_select : Clause → Bool
is_locking_select (select locking) = locking
is_locking_select _ = false

pub is_update_base : Clause → Bool
is_update_base update_base = true
is_update_base _ = false

pub is_write : Clause → Bool → Bool
is_write clause flushing = flushing || (is_update_base clause || is_locking_select clause)

pub record State : Type 0 where
  pub router : DatabaseRouter
  pub info : Info

pub reader_of : State → Engine × State
reader_of s = elim s.info.reader_pinned [
  | some r ↦ (r, s)
  | none ↦
      let (r, router) = next_reader s.router in
      (r, record { router = router; info = record s.info { reader_pinned = some r } })
]

-- `none`: ReadOnlyRoutingError
pub get_bind : Clause → Bool → State → Option Engine × State
get_bind clause flushing s =
    if is_write clause flushing
    then (if s.info.read_only then (none, s) else (
      some writer,
      if s.info.writer_pinned || not s.router.sticky_after_write
          then s
          else record s { info = using_writer s.info },
    ))
    else (if s.info.writer_pinned
        then (some writer, s)
        else let (r, after) = reader_of s in (some r, after))

-- What the code reads of a DBAPIError: `connection_invalidated`, and `orig.args[0]` where it is a
-- number.
pub record DbApiError : Type 0 where
  pub connection_invalidated : Bool
  pub code : Option ℕ

-- _CONNECTION_ERROR_CODES
abbrev pub connection_error_codes : List ℕ
connection_error_codes = 1040 ∷ 1053 ∷ 2002 ∷ 2003 ∷ 2005 ∷ 2006 ∷ 2013 ∷ 2055 ∷ 3032 ∷ []

pub is_connection_error : DbApiError → Bool
is_connection_error error =
    error.connection_invalidated
    || elim error.code [ none ↦ false | some n ↦ any (eqb n) connection_error_codes ]

-- What a statement on an engine ends in: a result, a DBAPIError, another exception.
pub data Answer : Type 0 where
  done failed : Answer
  dbapi_error : DbApiError → Answer

pub data Outcome : Type 0 where
  answered : Answer → Outcome
  read_only_error : Outcome

-- How an execution ended, the engines that it was tried on, and the session after it.
pub record Run : Type 0 where
  pub outcome : Outcome
  pub tried : List Engine
  pub state : State

module _ (alnum : ℕ → Bool) (lower : List ℕ → List ℕ) (driver : Engine → Clause → Answer) where
  pub send : Clause → Option Engine × State → Run
  send clause (none, s) = record { outcome = read_only_error; tried = []; state = s }
  send clause (some e, s) = record {
    outcome = answered (driver e clause);
    tried = e ∷ [];
    state = s;
  }

  pub bind_and_send : Clause → State → Run
  bind_and_send clause s = send clause (get_bind clause false s)

  -- Session._execute_internal, with the do_orm_execute event before it
  pub attempt : Clause → State → Run
  attempt clause s =
      if s.info.read_only && not (statement_is_readable alnum lower clause)
      then record { outcome = read_only_error; tried = []; state = s }
      else bind_and_send clause s

  pub on_replica : Info → Bool
  on_replica info = is_some info.reader_pinned && not info.writer_pinned

  -- one more time, on the writer
  pub again : Clause → Run → Run
  again clause first =
      let s = record first.state { info = using_writer first.state.info } in
      let second = attempt clause s in
      record { outcome = second.outcome; tried = first.tried ++ second.tried; state = second.state }

  pub retried : Clause → Run → Run
  retried clause first = elim first.outcome [
    | answered (dbapi_error error) ↦
        if first.state.info.read_only && on_replica first.state.info && is_connection_error error
        then again clause first
        else first
    | _ ↦ first
  ]

  pub execute_internal : Clause → State → Run
  execute_internal clause s = retried clause (attempt clause s)

  -- before_flush, and the binding of the flush's statements
  pub flush : State → Run
  flush s =
      if s.info.read_only
      then record { outcome = read_only_error; tried = []; state = s }
      else send other (get_bind other true s)
