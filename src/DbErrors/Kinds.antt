-- ===== src/DbErrors/Kinds.antt =====
-- The kinds of database errors, by the status of their answers
-- (app/core/repositories/db_error_translator.py).
use fastapi_project_structur.Common.{
  String, ◌≡◌, ◌↔◌, Bool, true, false, ◌&&◌, ◌||◌, not, ◌==◌, arith,
}
use fastapi_project_structur.Exceptions.{status_code}
use fastapi_project_structur.DbErrors.{DbError, mysql_code, is_code, says, translate}

-- What a constraint refused, by the server's code or SQLite's phrase.
abbrev pub is_duplicate : DbError → Bool
is_duplicate e = is_code 1062 (mysql_code e.args) || says "UNIQUE constraint failed" e

abbrev pub is_null : DbError → Bool
is_null e =
    (is_code 1048 (mysql_code e.args) || is_code 1364 (mysql_code e.args))
    || says "NOT NULL constraint failed" e

abbrev pub is_referenced : DbError → String → Bool
is_referenced e operation =
    is_code 1451 (mysql_code e.args)
    || (says "FOREIGN KEY constraint failed" e && operation == "DELETE")

abbrev pub is_dangling : DbError → Bool
is_dangling e = is_code 1452 (mysql_code e.args) || says "FOREIGN KEY constraint failed" e

-- A database error is answered with 409 exactly if it is a duplicate, or if it is no violation
-- of NOT NULL and the row is still referenced, which SQLite tells only for a deletion.
pub translate_conflict_iff :
    (e : DbError) (model operation : String)
    → (status_code (translate e model operation).exception ≡ 409)
      ↔ ((is_duplicate e || (not (is_null e) && is_referenced e operation)) ≡ true)
unfolding translate status_code
translate_conflict_iff e model operation = ground arith

-- A database error is answered with 500 exactly if neither its server code nor its text names
-- one of the four kinds of constraint violations.
translate_database_iff :
    (e : DbError) (model operation : String)
    → (status_code (translate e model operation).exception ≡ 500)
      ↔ ((is_duplicate e || is_null e || is_referenced e operation || is_dangling e) ≡ false)
unfolding translate status_code
translate_database_iff e model operation = ground arith
