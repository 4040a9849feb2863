-- ===== src/AccessLog.antt =====
-- app/core/middlewares/user_info_middleware.py and access_log_sink.py, and what app/features/home
-- does with an entry: access_log_sink.py and services/user_access_log_service.py. The parser of user
-- agents, `urlencode` and the resolver of addresses are parameters. A text is its code points.
pub mod Recorded
pub mod Columns
mod Queries
use mathlib.Core.List.{reverse}
use fastapi_project_structur.Common.{
  ℕ, String, ◌==◌, Bool, true, false, not, ◌||◌, Option, none, some, List, [], ◌∷◌, ◌++◌, codes,
  map, is_empty, any, take, if◌then◌else◌,
}
use fastapi_project_structur.DbErrors.{starts}
use fastapi_project_structur.Config.Safety.{same_text}
use fastapi_project_structur.BackgroundTasks.{Runner, spawn}
use fastapi_project_structur.Repository.{Model, Session}
use fastapi_project_structur.Repository.Dependencies.{background_context}
use fastapi_project_structur.Repository.Requests.{create, request}

abbrev pub Text : Type 0
Text = List ℕ

-- What an entry's field holds.
pub data Value : Type 0 where
  null : Value
  text : Text → Value
  number : ℕ → Value
  flag : Bool → Value

abbrev pub Entry : Type 0
Entry = List (String × Value)

pub record Settings : Type 0 where
  pub access_log_enabled : Bool
  pub exclude_paths : List Text
  pub exclude_extensions : List Text
  -- in lower case
  pub sensitive_query_keys : List Text

-- What the middleware reads of a request.
pub record Request : Type 0 where
  pub path : Text
  pub method : Text
  pub header : String → Option Text
  pub query : List (Text × Text)
  pub session_cookie : Option Text
  pub peer : Option Text

-- What `user_agents.parse` finds.
pub record UserAgent : Type 0 where
  pub is_mobile : Bool
  pub is_tablet : Bool
  pub is_pc : Bool
  pub is_bot : Bool
  pub os_family : Text
  pub os_version : Text
  pub browser_family : Text
  pub browser_version : Text
  pub device_brand : Option Text
  pub device_model : Option Text

unfoldable pub member : Text → List Text → Bool
member x [] = false
member x (y ∷ ys) = same_text y x || member x ys

-- str.endswith
unfoldable pub ends_with : Text → Text → Bool
ends_with path ext = starts (reverse ext) (reverse path)

unfoldable pub should_skip : Settings → Text → Bool
should_skip settings path =
    not settings.access_log_enabled
    || member path settings.exclude_paths
    || any (ends_with path) settings.exclude_extensions

abbrev pub optional : Option Text → Value
optional none = null
optional (some s) = text s

-- `value or None`, and the family unless it is "Other"
abbrev pub nonempty : Text → Value
nonempty s = if is_empty s then null else text s

abbrev pub nonempty_option : Option Text → Value
nonempty_option none = null
nonempty_option (some s) = nonempty s

abbrev pub family : Text → Value
family s = if same_text s (codes "Other") then null else text s

unfoldable pub device_type : UserAgent → Text
device_type ua =
    if ua.is_mobile
    then codes "mobile"
    else if ua.is_tablet
    then codes "tablet"
    else if ua.is_pc
    then codes "desktop"
    else codes "other"

unfoldable pub no_user_agent : Entry
no_user_agent =
    ("os_name", null)
    ∷ ("os_version", null)
    ∷ ("browser_name", null)
    ∷ ("browser_version", null)
    ∷ ("device_type", null)
    ∷ ("device_brand", null)
    ∷ ("device_model", null)
    ∷ ("is_bot", flag false)
    ∷ []

unfoldable pub user_agent_info : UserAgent → Entry
user_agent_info ua =
    ("os_name", family ua.os_family)
    ∷ ("os_version", nonempty ua.os_version)
    ∷ ("browser_name", family ua.browser_family)
    ∷ ("browser_version", nonempty ua.browser_version)
    ∷ ("device_type", text (device_type ua))
    ∷ ("device_brand", nonempty_option ua.device_brand)
    ∷ ("device_model", nonempty_option ua.device_model)
    ∷ ("is_bot", flag ua.is_bot)
    ∷ []

abbrev pub masked_value : Text
masked_value = codes "***"

-- How the rest of the application ends a request: a response's status, or an exception.
pub data Ended : Type 0 where
  responded : ℕ → Ended
  crashed : Ended

-- What call_next makes of a request: how it ends, and the user id that the authentication left in
-- the request's state.
pub record Called : Type 0 where
  pub ended : Ended
  pub user_id : Value

unfoldable pub status : Ended → ℕ
status (responded code) = code
status crashed = 500

module _ (settings : Settings) (lower : Text → Text) (urlencode : List (Text × Text) → Text)
    (parse : Text → UserAgent) (resolve : (String → Option Text) → Option Text → Option Text) where
  unfoldable pub masked_pair : Text × Text → Text × Text
  masked_pair (key, value) =
      (key, if member (lower key) settings.sensitive_query_keys then masked_value else value)

  unfoldable pub mask_query_string : Request → Value
  mask_query_string request =
      if is_empty request.query then null else text (urlencode (map masked_pair request.query))

  unfoldable pub parse_user_agent : Option Text → Entry
  parse_user_agent none = no_user_agent
  parse_user_agent (some s) = if is_empty s then no_user_agent else user_agent_info (parse s)

  unfoldable pub collect_request_info : Request → Entry
  collect_request_info request =
      (("ip_address", optional (resolve request.header request.peer))
        ∷ ("forwarded_for", optional (request.header "X-Forwarded-For"))
        ∷ ("real_ip", optional (request.header "X-Real-IP"))
        ∷ ("user_agent", optional (request.header "User-Agent"))
        ∷ [])
      ++ (parse_user_agent (request.header "User-Agent")
          ++ (("request_path", text request.path)
              ∷ ("request_method", text request.method)
              ∷ ("query_string", mask_query_string request)
              ∷ ("referer", optional (request.header "Referer"))
              ∷ ("accept_language", optional (request.header "Accept-Language"))
              ∷ ("session_id", optional request.session_cookie)
              ∷ []))

  unfoldable pub completed : Entry → Value → ℕ → ℕ → Entry
  completed info user_id code ms =
      info
      ++ (("user_id", user_id)
          ∷ ("response_status", number code)
          ∷ ("response_time_ms", number ms)
          ∷ [])

  -- what the runner was asked to save, if it accepted the task
  unfoldable pub accepted : Entry → Bool × Runner → Option Entry × Runner
  accepted entry (true, r) = (some entry, r)
  accepted entry (false, r) = (none, r)

  -- `task` is the task's number
  unfoldable pub record_entry : Entry → Value → (code ms task : ℕ) → Runner → Option Entry × Runner
  record_entry info user_id code ms task r =
      accepted (completed info user_id code ms) (spawn task r)

  -- what the request adds to the tasks, when the rest of the application has ended it
  unfoldable pub recorded : Entry → Called → (ms task : ℕ) → Runner → Option Entry × Runner
  recorded info called ms task r = record_entry info called.user_id (status called.ended) ms task r

  -- what is passed on, and what the request adds to the tasks
  unfoldable pub dispatch :
      (call_next : Request → Called)
      → Request
      → (ms task : ℕ) → Runner
      → Ended × (Option Entry × Runner)
  dispatch call_next request ms task r =
      let called = call_next request in
      if should_skip settings request.path
      then (called.ended, (none, r))
      else (called.ended, recorded (collect_request_info request) called ms task r)

-- the columns' lengths, none where a column has none
module _ (column_limits : String → Option ℕ) where
  unfoldable pub truncated : Option ℕ → Value → Value
  truncated (some n) (text s) = text (take n s)
  truncated _ value = value

  unfoldable pub truncate_to_columns : Entry → Entry
  truncate_to_columns [] = []
  truncate_to_columns ((key, value) ∷ entry) =
      (key, truncated (column_limits key) value) ∷ truncate_to_columns entry

  module _ {model : Model} (session : Session model) (encode : Value → model.Value) where
    unfoldable pub encoded : Entry → List (String × model.Value)
    encoded [] = []
    encoded ((key, value) ∷ entry) = (key, encode value) ∷ encoded entry

    -- HomeAccessLogSink.save: one row in a background session, which is committed
    unfoldable pub save : Entry → session.State → session.State
    save entry s =
        (request session background_context (create (encoded (truncate_to_columns entry)) ∷ []) s).1

    -- _save_access_log, which keeps every exception to itself; without a sink it does nothing
    unfoldable pub save_access_log : (has_sink : Bool) → Entry → session.State → session.State
    save_access_log has_sink entry s = if has_sink then save entry s else s
