-- ===== src/DbErrors.antt =====
-- app/core/repositories/db_error_translator.py: which application exception a driver error becomes.
-- An error is what the translator reads of it: whether it is an IntegrityError, the arguments of
-- the driver's exception, and its text.
pub mod Kinds
use fastapi_project_structur.Common.{
  ℕ, String, Bool, true, false, ◌&&◌, ◌||◌, Option, none, some, List, [], ◌∷◌, eqb, ◌==◌, codes,
  if◌then◌else◌,
}
use fastapi_project_structur.Exceptions.{
  AppException, bad_request, validation, conflict, duplicate, database,
}

pub data Argument : Type 0 where
  number : ℕ → Argument
  other : Argument

pub record DbError : Type 0 where
  pub is_integrity : Bool
  pub args : List Argument
  pub orig : String

-- `part in text`
abbrev pub starts : List ℕ → List ℕ → Bool
starts [] s = true
starts (p ∷ part) [] = false
starts (p ∷ part) (c ∷ s) = eqb p c && starts part s

abbrev pub included : List ℕ → List ℕ → Bool
included part [] = starts part []
included part (c ∷ s) = starts part (c ∷ s) || included part s

pub mysql_code : List Argument → Option ℕ
mysql_code (number n ∷ rest) = some n
mysql_code (other ∷ rest) = none
mysql_code [] = none

-- `code == n`
pub is_code : ℕ → Option ℕ → Bool
is_code n (some c) = eqb c n
is_code n none = false

-- A phrase in the message, which is empty but for an IntegrityError.
pub says : String → DbError → Bool
says phrase error = error.is_integrity && included (codes phrase) (codes error.orig)

-- The exception's class, the model in its detail, and the message.
pub record Refusal : Type 0 where
  pub exception : AppException
  pub model : String
  pub message : String

abbrev pub failure_message : String → String
failure_message operation =
    if operation == "CREATE"
    then "데이터 생성 중 오류가 발생했습니다."
    else if operation == "UPDATE"
    then "데이터 업데이트 중 오류가 발생했습니다."
    else if operation == "DELETE"
    then "데이터 삭제 중 오류가 발생했습니다."
    else "데이터베이스 오류가 발생했습니다."

pub translate : DbError → String → String → Refusal
translate error model operation =
    let code = mysql_code error.args in
    let sqlite_fk = says "FOREIGN KEY constraint failed" error in
    if is_code 1062 code || says "UNIQUE constraint failed" error
    then record { exception = duplicate; model = model; message = "이미 존재하는 데이터입니다." }
    else if (is_code 1048 code || is_code 1364 code) || says "NOT NULL constraint failed" error
    then record { exception = validation []; model = model; message = "필수 값이 비어 있습니다." }
    else if is_code 1451 code || (sqlite_fk && operation == "DELETE")
    then record { exception = conflict; model = model; message = "다른 데이터에서 참조 중이어서 처리할 수 없습니다." }
    else if is_code 1452 code || sqlite_fk
    then record { exception = validation []; model = model; message = "참조하는 데이터가 없습니다." }
    else record { exception = database; model = model; message = failure_message operation }
