-- ===== src/Examples/Logs.antt =====
-- Examples of the access log and of the filters of log records.
use fastapi_project_structur.Common.{
  ℕ, String, ◌≡◌, refl, true, false, Option, none, some, List, [], ◌∷◌, ◌++◌, codes, if◌then◌else◌,
  ◌==◌, is_empty, any,
}
use fastapi_project_structur.Config.Safety.{same_text}
use fastapi_project_structur.BackgroundTasks.{new_runner}
use fastapi_project_structur.AccessLog.{
  Text, Value, null, text, number, Entry, Settings, Request, UserAgent, Called, responded, member,
  dispatch, save_access_log, truncate_to_columns,
}
use fastapi_project_structur.AccessLog.Recorded.{same, hidden, nil, dispatch_masks}
use fastapi_project_structur.AccessLog.Columns.{AllFit, Saved, save_access_log-Saved}
use fastapi_project_structur.DbRouter.{new_session}
use fastapi_project_structur.Repository.Memory.{Table, nothing, numbers, numbers-Documented}
use fastapi_project_structur.LogFilters.{
  LogRecord, Arguments, tuple, get_message, redacting_filter, filtered, hidden_message,
  hidden_traces, collapsed, with_args, redacted_args, redacted_argument, rendered,
}
use fastapi_project_structur.LogFilters
use fastapi_project_structur.LogFilters.Redacted.{Shown, IsTrace, redacting_filter-Shown}

abbrev settings : Settings
settings = record {
  access_log_enabled = true;
  exclude_paths = [];
  exclude_extensions = codes ".css" ∷ [];
  sensitive_query_keys = codes "token" ∷ [];
}

abbrev lower : Text → Text
lower s = s

abbrev urlencode : List (Text × Text) → Text
urlencode [] = []
urlencode ((key, value) ∷ rest) = key ++ value ++ urlencode rest

abbrev no_agent : UserAgent
no_agent = record {
  is_mobile = false;
  is_tablet = false;
  is_pc = true;
  is_bot = false;
  os_family = codes "Other";
  os_version = [];
  browser_family = codes "Other";
  browser_version = [];
  device_brand = none;
  device_model = none;
}

abbrev parse : Text → UserAgent
parse s = no_agent

abbrev resolve : (String → Option Text) → Option Text → Option Text
resolve header peer = peer

abbrev request : Request
request = record {
  path = codes "/api/blog";
  method = codes "GET";
  header = λ name. none;
  query = (codes "page", codes "2") ∷ (codes "token", codes "abc") ∷ [];
  session_cookie = none;
  peer = some (codes "9.9.9.9");
}

abbrev other_token : List (Text × Text)
other_token = (codes "page", codes "2") ∷ (codes "token", codes "xyz") ∷ []

is_sensitive : member (codes "token") (codes "token" ∷ []) ≡ true
unfolding member
is_sensitive = refl

-- The application answers by the query.
abbrev answer : Request → Called
answer r = record {
  ended = responded (if is_empty r.query then 400 else 200);
  user_id = if any (λ p. same_text (p.1) (codes "b")) r.query then number 7 else null;
}

dispatch_masks_example :
    dispatch settings lower urlencode parse resolve answer
      (record request { query = other_token })
      5
      1
      (new_runner 10)
    ≡ dispatch settings lower urlencode parse resolve
        (λ _. answer (record request { query = other_token }))
        request
        5
        1
        (new_runner 10)
dispatch_masks_example =
    dispatch_masks settings lower urlencode parse resolve answer request other_token 5 1
      (new_runner 10) (same (hidden is_sensitive nil))

abbrev limits : String → Option ℕ
limits name = if name == "referer" then some 3 else none

abbrev encode : Value → ℕ
encode (number n) = n
encode _ = 1

abbrev entry : Entry
entry = ("referer", text (codes "example")) ∷ ("response_status", number 200) ∷ []

abbrev rows : Table
rows = record { stored = λ id. none; visible = λ id. none; pending = nothing; info = new_session }

save_access_log-Saved_example :
    Saved limits numbers-Documented encode entry
      (λ id. none)
      (save_access_log limits numbers encode true entry rows).stored
    × AllFit limits (truncate_to_columns limits entry)
unfolding numbers-Documented
save_access_log-Saved_example =
    save_access_log-Saved limits numbers-Documented encode true entry rows refl

-- A redaction that hides one word, and messages that are their arguments.
abbrev redact : Text → Text
redact s = if same_text s (codes "secret") then codes "***" else s

abbrev format : Text → Arguments → Option Text
format msg (tuple (LogFilters.text s ∷ [])) = some s
format msg _ = none

abbrev format_exception : ℕ → Text
format_exception n = codes "trace"

abbrev leaking : LogRecord
leaking = record {
  name = codes "app";
  levelno = 20;
  pathname = codes "/app/main.py";
  appname = codes "app";
  classname = codes "-";
  msg = codes "%s";
  args = tuple (LogFilters.text (codes "secret") ∷ []);
  exc_info = some 1;
  exc_text = [];
  stack_info = [];
}

abbrev hidden_record : LogRecord
hidden_record = record leaking {
  args = tuple (LogFilters.text (codes "***") ∷ []);
  exc_text = codes "trace";
}

shows : get_message redact format format_exception leaking ≡ some (codes "secret")
unfolding get_message
shows = refl

passes : redacting_filter redact format format_exception leaking ≡ some hidden_record
unfolding redacting_filter filtered hidden_message hidden_traces collapsed with_args redacted_args
    redacted_argument rendered get_message
passes = refl

redacting_filter-Shown_example :
    Shown redact format format_exception (codes "secret") hidden_record
    × IsTrace redact format format_exception (codes "trace")
    × IsTrace redact format format_exception []
redacting_filter-Shown_example =
    redacting_filter-Shown redact format format_exception leaking hidden_record (codes "secret")
      shows passes
