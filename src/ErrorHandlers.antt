-- ===== src/ErrorHandlers.antt =====
-- The exceptions' attributes (app/core/exception.py), and what main.py answers for an exception and
-- logs of it. A raised exception is known by its class's name and by what its handler reads of it.
use fastapi_project_structur.Common.{
  ℕ, String, Bool, Option, none, some, List, [], ◌∷◌, ◌==◌, ◌+++◌, ltb, if◌then◌else◌,
}
use fastapi_project_structur.Json.{Json}

pub record FieldError : Type 0 where
  -- ".".join of the location, and the message and the type
  pub field : String
  pub message : String
  pub kind : String

pub data Detail : Type 0 where
  retry_after : ℕ → Detail
  errors : List FieldError → Detail
  given : Json → Detail

abbrev pub Headers : Type 0
Headers = List (String × String)

-- ErrorResponse
pub record ErrorResponse : Type 0 where
  pub error_code : String
  pub message : String
  pub detail : Option Detail

-- The attributes of a class, and those of an instance.
pub record ExceptionClass : Type 0 where
  pub status_code : ℕ
  pub error_code : String
  pub message : String

pub record Instance : Type 0 where
  pub status_code : ℕ
  pub error_code : String
  pub message : String
  pub detail : Option Detail
  pub headers : Option Headers

-- `text or default`
unfoldable pub text_or : Option String → String → String
text_or none default = default
text_or (some text) default = if text == "" then default else text

unfoldable pub given_or {ℓ} : {A : Type ℓ} → Option A → A → A
given_or none default = default
given_or (some a) default = a

-- AppException.__init__
unfoldable pub new_exception :
    ExceptionClass
    → (message : Option String) (detail : Option Detail) (status_code : Option ℕ)
      (error_code : Option String) (headers : Option Headers)
    → Instance
new_exception c message detail status_code error_code headers = record {
  status_code = given_or status_code c.status_code;
  error_code = given_or error_code c.error_code;
  message = text_or message c.message;
  detail = detail;
  headers = headers;
}

-- {"WWW-Authenticate": "Bearer", **(headers or {})}: a key that is given again keeps its place
unfoldable pub value_or : String → String → Headers → String
value_or name default [] = default
value_or name default ((key, value) ∷ rest) =
    let later = value_or name default rest in if key == name then value else later

unfoldable pub without_name : String → Headers → Headers
without_name name [] = []
without_name name ((key, value) ∷ rest) =
    let later = without_name name rest in if key == name then later else (key, value) ∷ later

unfoldable pub with_bearer : Headers → Headers
with_bearer headers =
    ("WWW-Authenticate", value_or "WWW-Authenticate" "Bearer" headers)
    ∷ without_name "WWW-Authenticate" headers

-- UnauthorizedException.__init__
unfoldable pub new_unauthorized :
    ExceptionClass
    → (message : Option String) (detail : Option Detail) (status_code : Option ℕ)
      (error_code : Option String) (headers : Option Headers)
    → Instance
new_unauthorized c message detail status_code error_code headers =
    new_exception c message detail status_code error_code (some (with_bearer (given_or headers [])))

abbrev pub too_many_requests_class : ExceptionClass
too_many_requests_class = record {
  status_code = 429;
  error_code = "TOO_MANY_REQUESTS";
  message = "요청이 너무 많습니다. 잠시 후 다시 시도하세요.";
}

-- TooManyRequestsException.__init__; `str` writes a number
unfoldable pub new_too_many_requests : (ℕ → String) → ℕ → Instance
new_too_many_requests str after =
    new_exception too_many_requests_class none (some (retry_after after)) none none
      (some (("Retry-After", str after) ∷ []))

abbrev pub validation_class : ExceptionClass
validation_class = record {
  status_code = 422;
  error_code = "VALIDATION_ERROR";
  message = "입력 데이터 유효성 검증에 실패했습니다.";
}

abbrev pub service_unavailable_class : ExceptionClass
service_unavailable_class = record {
  status_code = 503;
  error_code = "SERVICE_UNAVAILABLE";
  message = "서비스가 일시적으로 사용 불가능합니다.";
}

unfoldable pub to_response : Instance → ErrorResponse
to_response e = record { error_code = e.error_code; message = e.message; detail = e.detail }

-- Of a request: the method, the path and the template of its route.
pub record Request : Type 0 where
  pub method : String
  pub path : String
  pub route : Option String

pub data Level : Type 0 where
  warning error : Level

-- A log entry: its arguments and what `extra` holds.
pub record Entry : Type 0 where
  pub level : Level
  pub arguments : List String
  pub path : String
  pub method : String
  pub status_code : Option ℕ
  pub detail : Option Detail

pub record Response : Type 0 where
  pub status_code : ℕ
  pub content : ErrorResponse
  pub headers : Option Headers

-- getattr(route, "path", None) or request.url.path
unfoldable pub template_of : Request → String
template_of request = text_or request.route request.path

unfoldable pub app_exception_handler : Request → Instance → Entry × Response
app_exception_handler request e = (
  record {
    level = if ltb e.status_code 500 then warning else error;
    arguments = e.error_code ∷ e.message ∷ [];
    path = template_of request;
    method = request.method;
    status_code = some e.status_code;
    detail = if ltb e.status_code 500 then none else e.detail;
  },
  record { status_code = e.status_code; content = to_response e; headers = e.headers },
)

unfoldable pub validation_exception_handler : Request → List FieldError → Entry × Response
validation_exception_handler request found =
    let e =
      new_exception validation_class (some "요청 데이터 유효성 검증에 실패했습니다.") (some (errors found)) none none
        none in
    (
      record {
        level = warning;
        arguments = [];
        path = request.path;
        method = request.method;
        status_code = none;
        detail = some (errors found);
      },
      record { status_code = e.status_code; content = to_response e; headers = none },
    )

-- StarletteHTTPException: its status, detail and headers
unfoldable pub http_exception_handler :
    (ℕ → String) → Request → ℕ → String → Option Headers → Entry × Response
http_exception_handler str request status detail headers = (
  record {
    level = warning;
    arguments = str status ∷ detail ∷ [];
    path = request.path;
    method = request.method;
    status_code = some status;
    detail = none;
  },
  record {
    status_code = status;
    content = record {
      error_code = "HTTP_" +++ str status;
      message = text_or (some detail) "HTTP 오류가 발생했습니다.";
      detail = none;
    };
    headers = headers;
  },
)

-- the name of the exception's class
unfoldable pub redis_unavailable_handler : Request → String → Entry × Response
redis_unavailable_handler request name =
    let e = new_exception service_unavailable_class none none none none none in
    (
      record {
        level = error;
        arguments = name ∷ [];
        path = template_of request;
        method = request.method;
        status_code = none;
        detail = none;
      },
      record { status_code = e.status_code; content = to_response e; headers = none },
    )

unfoldable pub general_exception_handler : Request → String → Entry × Response
general_exception_handler request name = (
  record {
    level = error;
    arguments = name ∷ [];
    path = template_of request;
    method = request.method;
    status_code = none;
    detail = none;
  },
  record {
    status_code = 500;
    content = record {
      error_code = "INTERNAL_SERVER_ERROR";
      message = "내부 서버 오류가 발생했습니다.";
      detail = none;
    };
    headers = none;
  },
)

-- What call_next does, and what the middleware makes of it: a response, with the entry of a handler
-- that it has called, or the exception.
pub data Called : Type 0 where
  returned : Response → Called
  raised : String → Called

pub data Answered : Type 0 where
  response : Option Entry → Response → Answered
  passed : String → Answered

unfoldable pub answered : Entry × Response → Answered
answered (entry, r) = response (some entry) r

unfoldable pub answer_unhandled_exception : (debug : Bool) → Request → Called → Answered
answer_unhandled_exception debug request (returned r) = response none r
answer_unhandled_exception debug request (raised name) =
    if debug then passed name else answered (general_exception_handler request name)

-- readiness_check: the names of the exceptions that the two checks end with, if any; the warnings, and
-- the response or the version.
pub data Readiness : Type 0 where
  ready : (version : String) → Readiness
  not_ready : Response → Readiness

unfoldable pub failures : List (String × Option String) → List (String × String)
failures [] = []
failures ((name, none) ∷ rest) = failures rest
failures ((name, some kind) ∷ rest) = (name, kind) ∷ failures rest

unfoldable pub readiness_of : String → List (String × String) → Readiness
readiness_of version [] = ready version
readiness_of version (f ∷ fs) = not_ready (record {
  status_code = 503;
  content = record { error_code = "NOT_READY"; message = "의존 자원이 준비되지 않았습니다."; detail = none };
  headers = none;
})

unfoldable pub readiness_check :
    (version : String) (writer_db redis : Option String) → List (String × String) × Readiness
readiness_check version writer_db redis =
    let warnings = failures (("DB", writer_db) ∷ ("Redis", redis) ∷ []) in
    (warnings, readiness_of version warnings)
