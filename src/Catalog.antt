-- ===== src/Catalog.antt =====
-- app/features/catalog/services/catalog_service.py: products, over the repository of their model.
-- The payloads are what model_dump yields.
use fastapi_project_structur.Common.{ℕ, String, Bool, Option, List}
use fastapi_project_structur.Repository
use fastapi_project_structur.Repository.{Model, Session, Outcome}

module _ {model : Model} (session : Session model) where
  open model use {Key, Value, Row}
  open session use {State}

  unfoldable pub create_product : List (String × Value) → State → Outcome Row × State
  create_product payload = Repository.create session payload

  unfoldable pub list_products : (skip limit : ℕ) → State → List Row × ℕ
  list_products skip limit s = (Repository.get_all session skip limit s, Repository.count session s)

  unfoldable pub get_product : Key → State → Option Row
  get_product id = Repository.get_by_id session id

  unfoldable pub update_product : Key → List (String × Value) → State → Outcome (Option Row) × State
  update_product id payload = Repository.update session id payload

  unfoldable pub delete_product : Key → State → Outcome Bool × State
  delete_product id = Repository.delete session id
