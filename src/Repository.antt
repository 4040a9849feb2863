-- ===== src/Repository.antt =====
-- app/core/repositories/crud_base.py and repository_base.py: a repository over a database session.
-- The session is SQLAlchemy's and a parameter, as is what a model class does: here stands what the
-- repository calls of them. A payload has the fields of a dictionary, none of them twice.
pub mod Dependencies
pub mod Requests
pub mod Contract
mod Endings
mod Pending
mod ReadOnly
pub mod Steps
pub mod Refinement
pub mod Memory
use fastapi_project_structur.Common.{
  ℕ, String, Bool, true, false, not, Option, none, some, List, [], ◌∷◌, map, contains, is_empty,
  ◌+++◌, if◌then◌else◌,
}
use fastapi_project_structur.Common.Sorting.{sorted}
use fastapi_project_structur.Exceptions.{validation, not_found}
use fastapi_project_structur.DbRouter.{Info}
use fastapi_project_structur.DbErrors.{DbError, Refusal, translate}

-- A class of rows: its name, its key's attribute and columns, and what its objects do.
pub record Model : Type 1 where
  pub Key : Type 0
  pub Value : Type 0
  pub Row : Type 0
  pub name : String
  pub pk_attr : String
  pub has_created_at : Bool
  pub columns : List String
  pub new : List (String × Value) → Row
  pub setattr : String → Value → Row → Row

-- What SQLAlchemy's calls end with. The last is the ReadOnlyRoutingError of app/core/db/router.py, a
-- RuntimeError, which a listener to a flush raises.
pub data Sql (A : Type 0) : Type 0 where
  routing_error : Sql A
  sql_error : DbError → Sql A
  done : A → Sql A

pub data Column : Type 0 where
  created_at pk : Column

-- AsyncSession: an object that is assigned to is written by the next flush, under its key.
pub record Session (model : Model) : Type 1 where
  pub State : Type 0
  -- session.info
  pub routing : State → Info
  pub set_routing : Info → State → State
  pub get : model.Key → State → Option model.Row
  pub add : model.Row → State → State
  pub assign : model.Key → model.Row → State → State
  pub delete : model.Key → State → State
  pub flush : State → Sql (Unit {0}) × State
  pub refresh : model.Row → State → Sql model.Row
  -- the rows in this order, each column descending, from an offset on
  pub select : List Column → ℕ → ℕ → State → List model.Row
  pub exists : model.Key → State → Bool
  pub count : State → ℕ
  pub commit : State → Sql (Unit {0}) × State
  pub rollback : State → State
  pub close : State → State

-- What a method of the repository ends with.
pub data Outcome (A : Type 0) : Type 0 where
  routing_failed : Outcome A
  raised : Refusal → Outcome A
  returned : A → Outcome A

module _ (model : Model) where
  open model use {Value, Row}

  -- the names in `set(payload) - known`
  unfoldable pub outside : List String → List String → List String
  outside known [] = []
  outside known (x ∷ xs) =
      let rest = outside known xs in if contains x known then rest else x ∷ rest

  unfoldable pub unknown_fields : List (String × Value) → List String
  unknown_fields payload = sorted (outside model.columns (map (λ p. p.0) payload))

  unfoldable pub has_pk : List (String × Value) → Bool
  has_pk payload = contains model.pk_attr (map (λ p. p.0) payload)

  unfoldable pub assigned : List (String × Value) → Row → Row
  assigned [] entity = entity
  assigned ((field, value) ∷ payload) entity = assigned payload (model.setattr field value entity)

  unfoldable pub refused : List String → String → Refusal
  refused fields message = record {
    exception = validation fields;
    model = model.name;
    message = message;
  }

module _ {model : Model} (session : Session model) where
  open model use {Key, Value, Row}
  open session use {State}

  -- flush, of a session with an object that is new, changed or deleted, and _block_read_only_flush of
  -- app/core/db/router.py before it
  unfoldable pub flush : State → Sql (Unit {0}) × State
  flush s = if (session.routing s).read_only then (routing_error, s) else session.flush s

  -- what follows a flush: the flushed object is read again
  unfoldable pub reread : Row → Sql (Unit {0}) × State → Sql Row × State
  reread entity (routing_error, s) = (routing_error, s)
  reread entity (sql_error e, s) = (sql_error e, s)
  reread entity (done _, s) = (session.refresh entity s, s)

  -- CRUDBase._add
  unfoldable pub add : Row → State → Sql Row × State
  add entity s = reread entity (flush (session.add entity s))

  -- CRUDBase._delete
  unfoldable pub remove : Key → State → Sql (Unit {0}) × State
  remove id s = flush (session.delete id s)

  -- BaseRepository._db_error, around a call that may raise; it translates an SQLAlchemyError only
  unfoldable pub db_error : {A B : Type 0} → (A → B) → String → Sql A × State → Outcome B × State
  db_error reply operation (routing_error, s) = (routing_failed, s)
  db_error reply operation (sql_error e, s) = (raised (translate e model.name operation), s)
  db_error reply operation (done a, s) = (returned (reply a), s)

  unfoldable pub create : List (String × Value) → State → Outcome Row × State
  create payload s = db_error (λ row. row) "CREATE" (add (model.new payload) s)

  unfoldable pub get_by_id : Key → State → Option Row
  get_by_id id s = session.get id s

  unfoldable pub or_raise : Option Row → Outcome Row
  or_raise none = raised (record {
    exception = not_found;
    model = model.name;
    message = model.name +++ "을(를) 찾을 수 없습니다.";
  })
  or_raise (some entity) = returned entity

  unfoldable pub get_by_id_or_raise : Key → State → Outcome Row
  get_by_id_or_raise id s = or_raise (get_by_id id s)

  unfoldable pub get_all : ℕ → ℕ → State → List Row
  get_all skip limit s =
      session.select (if model.has_created_at then created_at ∷ pk ∷ [] else pk ∷ []) skip limit s

  unfoldable pub exists : Key → State → Bool
  exists id s = session.exists id s

  -- without filters
  unfoldable pub count : State → ℕ
  count s = session.count s

  unfoldable pub write : Key → List (String × Value) → Row → State → Sql Row × State
  write id payload entity s =
      reread (assigned model payload entity)
        (flush (session.assign id (assigned model payload entity) s))

  unfoldable pub update_found :
      Option Row → Key → List (String × Value) → State → Outcome (Option Row) × State
  update_found none id payload s = (returned none, s)
  update_found (some entity) id payload s =
      if is_empty payload
      then (returned (some entity), s)
      else if not (is_empty (unknown_fields model payload))
      then (raised (refused model (unknown_fields model payload) "알 수 없는 필드는 수정할 수 없습니다."), s)
      else if has_pk model payload
      then (raised (refused model (model.pk_attr ∷ []) "기본키는 수정할 수 없습니다."), s)
      else db_error some "UPDATE" (write id payload entity s)

  unfoldable pub update : Key → List (String × Value) → State → Outcome (Option Row) × State
  update id payload s = update_found (session.get id s) id payload s

  unfoldable pub delete_found : Option Row → Key → State → Outcome Bool × State
  delete_found none id s = (returned false, s)
  delete_found (some entity) id s = db_error (λ _. true) "DELETE" (remove id s)

  unfoldable pub delete : Key → State → Outcome Bool × State
  delete id s = delete_found (session.get id s) id s
