-- ===== src/AdminLogin.antt =====
-- app/features/auth/admin_auth.py, class AdminAuthBackend: login, logout and the check of each
-- request. The users table and the counters are interfaces; random tokens are arguments. A refusal
-- renders the login page, of which the status and the CSRF token that it needs are kept.
pub mod Page
pub mod Earned
pub mod Fixation
use fastapi_project_structur.Common.{
  ℕ, String, Bool, true, false, not, ◌||◌, Option, none, some, List, [], ◌∷◌, ◌==◌, ◌+++◌,
  if◌then◌else◌,
}
use fastapi_project_structur.Exceptions.{Result, ok, err}
use fastapi_project_structur.Json.{Json, text, is_truthy}
use fastapi_project_structur.Stored.{Session}
use fastapi_project_structur.AdminSession.{get_entry}
use fastapi_project_structur.AdminCsrf.{csrf_valid}
use fastapi_project_structur.RateLimiter.{Counters, RateLimitResult, hit, reset}
use fastapi_project_structur.Hasher.{PasswordLibrary}
use fastapi_project_structur.AuthService.{User}
use fastapi_project_structur.AuthService.Accounts.{Accounts, authenticate}

-- The form's fields, "" where it has none, and what the resolver finds.
pub record Form : Type 0 where
  pub username : String
  pub password : String
  pub csrf_token : Json
  pub ip : String
  -- username.lower()
  pub lowered : String

pub record Limits : Type 0 where
  pub ip_max_attempts : ℕ
  pub max_attempts : ℕ
  pub window : ℕ

pub data Answer : Type 0 where
  rendered : ℕ → Answer
  -- 429, with Retry-After
  throttled : ℕ → Answer
  logged_in : Answer

-- request.session[key] = value
unfoldable pub set_entry : String → Json → Session → Session
set_entry name value [] = (name, value) ∷ []
set_entry name value ((key, old) ∷ rest) =
    let later = set_entry name value rest in
    if key == name then (key, value) ∷ rest else (key, old) ∷ later

-- a text that is not empty
unfoldable pub usable_token : Json → Option String
usable_token (text token) = if not (token == "") then some token else none
usable_token _ = none

unfoldable pub ensured : Option String → String → Session → String × Session
ensured (some token) fresh entries = (token, entries)
ensured none fresh entries = (fresh, set_entry "csrf_token" (text fresh) entries)

-- the token for the login page; `fresh` is what token_urlsafe would return
unfoldable pub csrf_token : (fresh : String) → Session → String × Session
csrf_token fresh entries = ensured (usable_token (get_entry "csrf_token" entries)) fresh entries

abbrev pub ip_key : String → String
ip_key ip = "admin:rl:login-ip:" +++ ip

abbrev pub user_key : (ip lowered : String) → String
user_key ip lowered = "admin:rl:login:" +++ (ip +++ (":" +++ lowered))

module _ (K : Counters) (lib : PasswordLibrary) (dummy_hash : String) (users : Accounts) where
  -- The session of the request, whether its id is to be rotated, the counters, and the committed
  -- users table.
  pub record State : Type 0 where
    pub entries : Session
    pub rotates : Bool
    pub counters : K.Db
    pub table : users.Table

  -- _render: the template calls csrf_token, which gives the session a token if it has none
  unfoldable pub render : (fresh : String) → ℕ → State → Answer × State
  render fresh code s = (rendered code, record s { entries = (csrf_token fresh s.entries).1 })

  -- the same page with Retry-After
  unfoldable pub throttle : (fresh : String) → ℕ → State → Answer × State
  throttle fresh retry_after s = (throttled retry_after, (render fresh 429 s).1)

  -- the loop over the limits: the wait, where one is exceeded
  unfoldable pub limited : List (String × ℕ) → (window : ℕ) → K.Db → Option ℕ × K.Db
  limited [] window db = (none, db)
  limited ((key, limit) ∷ rest) window db =
      let (result, after) = hit K key limit window db in
      let later = limited rest window after in
      if not result.allowed then (some result.retry_after, after) else later

  -- a session without its old entries, under a new id
  unfoldable pub renewed : Form → (fresh : String) → User → users.Table → State → State
  renewed form fresh user table s = record {
    entries = ("user_id", text user.id) ∷ ("csrf_token", text fresh) ∷ [];
    rotates = true;
    counters = reset K (user_key form.ip form.lowered) s.counters;
    table = table;
  }

  -- the database session, which is committed for a superuser only
  unfoldable pub verified :
      Form → (fresh : String) → Result User × users.Table → State → Answer × State
  verified form fresh (err e, table) s = render fresh 400 s
  verified form fresh (ok user, table) s =
      if not user.is_superuser
      then render fresh 400 s
      else (logged_in, renewed form fresh user table s)

  unfoldable pub admitted : Form → (salt fresh : String) → Option ℕ × K.Db → State → Answer × State
  admitted form salt fresh (some retry_after, db) s =
      throttle fresh retry_after (record s { counters = db })
  admitted form salt fresh (none, db) s =
      verified form fresh
        (authenticate lib dummy_hash users form.username salt form.password s.table)
        (record s { counters = db })

  unfoldable pub login : Limits → Form → (salt fresh : String) → State → Answer × State
  login limits form salt fresh s =
      if not (csrf_valid s.entries form.csrf_token)
      then render fresh 403 s
      else admitted form salt fresh
          (limited
            ((ip_key form.ip, limits.ip_max_attempts)
              ∷ (user_key form.ip form.lowered, limits.max_attempts)
              ∷ [])
            limits.window s.counters)
          s

  unfoldable pub is_admin : Option User → Bool
  is_admin none = false
  is_admin (some user) = not (not user.is_active || not user.is_superuser)

  -- `get_by_id` on the committed table
  unfoldable pub authenticate_request : (Json → users.Table → Option User) → State → Bool × State
  authenticate_request get_by_id s =
      if not (is_truthy (get_entry "user_id" s.entries))
      then (false, s)
      else if is_admin (get_by_id (get_entry "user_id" s.entries) s.table)
      then (true, s)
      else (false, record s { entries = [] })

  unfoldable pub logout : State → Bool × State
  logout s = (true, record s { entries = [] })
