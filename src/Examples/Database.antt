-- ===== src/Examples/Database.antt =====
-- Examples of requests over a table in memory.
use fastapi_project_structur.Common.{◌≡◌, refl, none, List, [], ◌∷◌}
use fastapi_project_structur.DbRouter.{new_session}
use fastapi_project_structur.Repository.Memory.{
  Table, nothing, Numbers, numbers, numbers-Documented,
}
use fastapi_project_structur.Repository.Dependencies.{writer, Dependency, read_only}
use fastapi_project_structur.Repository.Requests.{
  Op, create, get, get_by_id_or_raise, exists, get_all, count, update, delete, request,
}
use fastapi_project_structur.Repository.Refinement.{Transacted, request-Transacted}

abbrev empty_table : Table
empty_table = record {
  stored = λ id. none;
  visible = λ id. none;
  pending = nothing;
  info = new_session;
}

abbrev calls : List (Op Numbers)
calls =
    create (("a", 3) ∷ [])
    ∷ create (("b", 4) ∷ [])
    ∷ update "a" (("number", 5) ∷ [])
    ∷ update "c" (("number", 6) ∷ [])
    ∷ delete "b"
    ∷ get_by_id_or_raise "a"
    ∷ count
    ∷ exists "b"
    ∷ get_all 0 10
    ∷ get "a"
    ∷ []

request-Transacted_example :
    Transacted numbers-Documented
      (λ id. none)
      calls
      ((request numbers writer calls empty_table).0)
      ((request numbers writer calls empty_table).1.stored)
    × (◌≡◌ {A = Dependency} writer read_only
        → (request numbers writer calls empty_table).1.stored ≡ (λ id. none))
unfolding numbers-Documented
request-Transacted_example = request-Transacted numbers-Documented writer calls empty_table refl
