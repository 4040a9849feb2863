-- ===== src/LogFilters.antt =====
-- app/utils/logs/filters.py: the filters of every log handler. The regular expressions behind
-- `redact`, `%` formatting and the rendering of exceptions are parameters; a text is its code points.
pub mod Redacted
use fastapi_project_structur.Common.{
  ℕ, String, Bool, true, false, not, ◌&&◌, ◌||◌, Option, none, some, List, [], ◌∷◌, codes, map,
  is_empty, any, leb, ltb, length, if◌then◌else◌,
}
use fastapi_project_structur.Common.Characters.{strip, split}
use fastapi_project_structur.DbErrors.{starts, included}
use fastapi_project_structur.Config.Safety.{same_text}

abbrev pub Text : Type 0
Text = List ℕ

-- str.replace("\\", "/")
unfoldable pub slashes : Text → Text
slashes [] = []
slashes (c ∷ s) = (if same_text (c ∷ []) (codes "\\") then b'/' else c) ∷ slashes s

abbrev pub first : List Text → Text
first [] = []
first (s ∷ rest) = s

abbrev pub dropped : Text → Text → Text
dropped [] s = s
dropped (p ∷ part) [] = []
dropped (p ∷ part) (c ∷ s) = dropped part s

-- text.split(part, 1)[1], where the text has the part
unfoldable pub after : Text → Text → Text
after part [] = []
after part (c ∷ s) =
    let later = after part s in if starts part (c ∷ s) then dropped part (c ∷ s) else later

abbrev pub external_apps : List (Text × Text)
external_apps =
    (codes "celery", codes "celery")
    ∷ (codes "kombu", codes "celery")
    ∷ (codes "uvicorn", codes "uvicorn")
    ∷ (codes "sqlalchemy", codes "sqlalchemy")
    ∷ (codes "alembic", codes "alembic")
    ∷ []

-- dict.get(name, default)
unfoldable pub get_or : {A : Type 0} → A → Text → List (Text × A) → A
get_or d name [] = d
get_or d name ((key, value) ∷ rest) =
    let later = get_or d name rest in if same_text key name then value else later

abbrev pub segments : List (Text × Text)
segments =
    (codes "/app/core/", codes "core")
    ∷ (codes "/app/celery/", codes "celery")
    ∷ (codes "/app/utils/", codes "utils")
    ∷ (codes "/migrations/", codes "migrations")
    ∷ []

unfoldable pub segment_of : Text → List (Text × Text) → Option Text
segment_of p [] = none
segment_of p ((seg, label) ∷ rest) =
    let later = segment_of p rest in if included seg p then some label else later

module _ (repo_root : Text) (lower : Text → Text) where
  unfoldable pub outside : Text → Text → Text
  outside p external =
      if included (codes "/site-packages/") p || included (codes "/dist-packages/") p
      then external
      else if included (codes "/app/") p
      then codes "app"
      else if starts repo_root (lower p)
      then codes "app"
      else external

  unfoldable pub labelled : Text → Text → Option Text → Text
  labelled p name (some label) = label
  labelled p name none = outside p (get_or (codes "ext") (first (split b'.' name)) external_apps)

  unfoldable pub app_from_slashes : Text → Text → Text
  app_from_slashes p name =
      if included (codes "/features/") p
      then first (split b'/' (after (codes "/features/") p))
      else labelled p name (segment_of p segments)

  unfoldable pub app_from_path : (pathname name : Text) → Text
  app_from_path pathname name = app_from_slashes (slashes pathname) name

-- An argument of a log call: a text, or an object that is known by a number.
pub data Argument : Type 0 where
  text : Text → Argument
  object : ℕ → Argument

pub data Arguments : Type 0 where
  tuple : List Argument → Arguments
  -- a mapping, or one object that is not in a tuple
  mapping : ℕ → Arguments

pub record LogRecord : Type 0 where
  pub name : Text
  pub levelno : ℕ
  pub pathname : Text
  pub appname : Text
  pub classname : Text
  pub msg : Text
  pub args : Arguments
  pub exc_info : Option ℕ
  pub exc_text : Text
  pub stack_info : Text

-- ContextFilter; `class_name` is what the stack shows
unfoldable pub context_filter :
    (repo_root : Text) (lower : Text → Text) (class_name : Text) → LogRecord → LogRecord
context_filter repo_root lower class_name r = record r {
  appname =
      if is_empty r.appname then app_from_path repo_root lower r.pathname r.name else r.appname;
  classname = if is_empty r.classname then class_name else r.classname;
}

unfoldable pub app_level_filter : List (Text × ℕ) → (default_level : ℕ) → LogRecord → Bool
app_level_filter levels default_level r = leb (get_or default_level r.appname levels) r.levelno

abbrev pub noisy_prefixes : List Text
noisy_prefixes =
    codes "sqlalchemy"
    ∷ codes "aiomysql"
    ∷ codes "aiosqlite"
    ∷ codes "asyncmy"
    ∷ codes "pymysql"
    ∷ codes "alembic.ddl"
    ∷ []

abbrev pub warning : ℕ
warning = 30

-- allow_sql_echo, where the constructor is given none; `in_tests` is whether ENV is development or test
unfoldable pub allow_sql_echo : Option Bool → (echo_enabled in_tests : Bool) → Bool
allow_sql_echo (some b) echo_enabled in_tests = b
allow_sql_echo none echo_enabled in_tests = echo_enabled && in_tests

unfoldable pub sql_noise_filter : (allowed : Bool) → LogRecord → Bool
sql_noise_filter allowed r =
    if allowed
    then true
    else if leb warning r.levelno
    then true
    else not (any (λ p. starts p r.name) noisy_prefixes)

module _ (redact : Text → Text) (format : Text → Arguments → Option Text)
    (format_exception : ℕ → Text) where
  abbrev pub no_args : Arguments → Bool
  no_args (tuple args) = is_empty args
  no_args (mapping m) = false

  -- LogRecord.getMessage, none where it raises
  unfoldable pub get_message : LogRecord → Option Text
  get_message r = if no_args r.args then some r.msg else format r.msg r.args

  unfoldable pub redacted_argument : Argument → Argument
  redacted_argument (text s) = text (redact s)
  redacted_argument (object n) = object n

  unfoldable pub redacted_args : Arguments → Arguments
  redacted_args (tuple args) = tuple (map redacted_argument args)
  redacted_args (mapping m) = mapping m

  -- from the second rendering on; none where it raises
  unfoldable pub collapsed : Text → LogRecord → Option Text → Option LogRecord
  collapsed message r none = none
  collapsed message r (some partial) =
      if same_text (redact partial) partial
      then some r
      else some (record r { msg = redact message; args = tuple [] })

  unfoldable pub with_args : LogRecord → LogRecord
  with_args r = record r { args = redacted_args r.args }

  unfoldable pub hidden_message : Text → LogRecord → Option LogRecord
  hidden_message message r =
      if same_text (redact message) message
      then some r
      else collapsed message (with_args r) (get_message (with_args r))

  unfoldable pub rendered : Option ℕ → Text → Text
  rendered none exc_text = exc_text
  rendered (some e) exc_text = if is_empty exc_text then format_exception e else exc_text

  abbrev pub redact_if : Text → Text
  redact_if s = if is_empty s then s else redact s

  unfoldable pub hidden_traces : Option LogRecord → Option LogRecord
  hidden_traces none = none
  hidden_traces (some r) = some (record r {
    exc_text = redact_if (rendered r.exc_info r.exc_text);
    stack_info = redact_if r.stack_info;
  })

  unfoldable pub filtered : LogRecord → Option Text → Option LogRecord
  filtered r none = some r
  filtered r (some message) = hidden_traces (hidden_message message r)

  -- RedactingFilter.filter, which always keeps the record; none where it raises
  unfoldable pub redacting_filter : LogRecord → Option LogRecord
  redacting_filter r = filtered r (get_message r)

abbrev pub short_secret_min_length : ℕ
short_secret_min_length = 4

-- set_secret_values: the secrets that are hidden anywhere, and the short ones
unfoldable pub long_values : List Text → List Text
long_values [] = []
long_values (v ∷ vs) =
    let rest = long_values vs in
    if is_empty (strip v) || ltb (length v) short_secret_min_length then rest else v ∷ rest

unfoldable pub short_values : List Text → List Text
short_values [] = []
short_values (v ∷ vs) =
    let rest = short_values vs in
    if is_empty (strip v) || leb short_secret_min_length (length v) then rest else v ∷ rest
