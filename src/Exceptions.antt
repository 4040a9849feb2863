-- ===== src/Exceptions.antt =====
-- The exception classes of app/core/exception.py and of the features, with the attributes that a
-- response shows: the status code and the error code, inherited where the class sets neither.
use fastapi_project_structur.Common.{ℕ, String, List}

pub data AppException : Type 0 where
  -- app/core/exception.py; 422 carries the names of the fields that it refuses
  bad_request unauthorized invalid_token forbidden not_found conflict duplicate : AppException
  database service_unavailable : AppException
  validation : List String → AppException
  too_many_requests : ℕ → AppException
  -- features/auth, user, blog, reply and sns
  invalid_credentials username_already_exists : AppException
  user_not_found username_duplicate privileged_field : AppException
  post_not_found reply_not_found sns_post_not_found : AppException

unfoldable pub status_code : AppException → ℕ
status_code bad_request = 400
status_code (validation fields) = 422
status_code unauthorized = 401
status_code invalid_token = 401
status_code invalid_credentials = 401
status_code forbidden = 403
status_code privileged_field = 403
status_code not_found = 404
status_code user_not_found = 404
status_code post_not_found = 404
status_code reply_not_found = 404
status_code sns_post_not_found = 404
status_code conflict = 409
status_code duplicate = 409
status_code username_already_exists = 409
status_code username_duplicate = 409
status_code (too_many_requests retry_after) = 429
status_code database = 500
status_code service_unavailable = 503

-- A computation that may raise.
pub data Result {ℓ} (A : Type ℓ) : Type ℓ where
  err : AppException → Result A
  ok : A → Result A

module _ {ℓ κ} {A : Type ℓ} {B : Type κ} where
  -- The rest of a computation, unless the first part raised.
  abbrev pub and_then : (A → Result B) → Result A → Result B
  and_then rest (err e) = err e
  and_then rest (ok a) = rest a
