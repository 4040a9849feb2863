-- ===== src/Examples/Admin.antt =====
-- Examples of logins at the admin pages.
use fastapi_project_structur.Common.{◌≡◌, refl, true, false, some, [], ◌∷◌, arith, ◌==◌}
use fastapi_project_structur.Json.{text}
use fastapi_project_structur.AuthService.{User, verify_credentials}
use fastapi_project_structur.AuthService
use fastapi_project_structur.AuthService.Accounts.{authenticate, settled}
use fastapi_project_structur.Hasher.{verify_and_update, known}
use fastapi_project_structur.RateLimiter.{hit, judged}
use fastapi_project_structur.AdminSession.{SessionRecord, commit, key, get_entry}
use fastapi_project_structur.AdminCsrf.{csrf_valid, is_valid}
use fastapi_project_structur.Redis.Memory.{empty}
use fastapi_project_structur.AdminLogin.{
  Form, Limits, logged_in, State, login, limited, admitted, verified, renewed,
}
use fastapi_project_structur.AdminLogin.Fixation.{login-ends_old_session}
use fastapi_project_structur.Examples.Access.{plain, accounts, new_user}
use fastapi_project_structur.Examples.Sessions.{counters, R, settings}

abbrev root : User
root = record (new_user "root" "root@example.com" "argon pw") { is_superuser = true }

abbrev form : Form
form = record {
  username = "root";
  password = "pw";
  csrf_token = text "token";
  ip = "9.9.9.9";
  lowered = "root";
}

abbrev limits : Limits
limits = record { ip_max_attempts = 3; max_attempts = 2; window = 60 }

abbrev Here : Type 0
Here = State counters plain "dummy" accounts

abbrev before : Here
before = record {
  entries = ("csrf_token", text "token") ∷ [];
  rotates = false;
  counters = λ k. 1;
  table = some root;
}

abbrev after : Here
after = (login counters plain "dummy" accounts limits form "s" "fresh" before).1

abbrev old : SessionRecord
old = record { entries = ("csrf_token", text "token") ∷ []; created_at = 5 }

succeeds : login counters plain "dummy" accounts limits form "s" "fresh" before ≡ (logged_in, after)
unfolding login limited admitted verified renewed authenticate settled hit judged csrf_valid
    is_valid get_entry verify_credentials AuthService.check verify_and_update known
succeeds = refl

other_key : (key R settings 10 "new" == key R settings 10 "sid") ≡ false
unfolding key
other_key = refl

login-ends_old_session_example :
    R.exists
      (key R settings 10 "sid")
      (commit R settings 10 (some old) (some "sid") after.rotates true "new" after.entries empty).1
    ≡ false
login-ends_old_session_example =
    login-ends_old_session counters plain "dummy" accounts limits form "s" "fresh" (omega arith) R
      settings 10 old "sid" "new" true empty before after refl other_key succeeds
