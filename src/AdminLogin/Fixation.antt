-- ===== src/AdminLogin/Fixation.antt =====
-- A login at the admin pages and the session that it replaces
-- (app/features/auth/admin_auth.py, app/core/security/admin_session.py).
use fastapi_project_structur.Common.{
  ℕ, ◌<◌, String, ◌≡◌, refl, Bool, true, false, some, [], ◌∷◌, ◌==◌,
}
use fastapi_project_structur.Json.{text}
use fastapi_project_structur.Redis.{Redis}
use fastapi_project_structur.Stored.{Stored}
use fastapi_project_structur.AdminSession.{SessionRecord, Settings, key, commit}
use fastapi_project_structur.AdminSession.Rotated.{commit_rotated-Gone}
use fastapi_project_structur.RateLimiter.{Counters}
use fastapi_project_structur.Hasher.{PasswordLibrary}
use fastapi_project_structur.AuthService.Accounts.{Accounts}
use fastapi_project_structur.AdminLogin.{Form, Limits, Answer, logged_in, State, login}
use fastapi_project_structur.AdminLogin.Earned.{Login, forged, slowed, refused, earned, login-Login}

module _ (K : Counters) (lib : PasswordLibrary) (dummy_hash : String) (users : Accounts)
    (limits : Limits) (form : Form) (salt fresh : String) (pos : 0 < limits.window) where
  abbrev Here : Type 0
  Here = State K lib dummy_hash users

  -- the new entries, by the id of a user
  IsFresh : Here → Type 0
  IsFresh s =
      (id : String) × (s.entries ≡ ("user_id", text id) ∷ ("csrf_token", text fresh) ∷ [])
      × (s.rotates ≡ true)

  Login-IsFresh :
      (s : Here) (x : Answer × Here)
      → Login K lib dummy_hash users limits form salt fresh pos s x
      → x.0 ≡ logged_in
      → IsFresh (x.1)
  unfolding IsFresh
  Login-IsFresh s _ (forged _ _) e = absurd (cc e)
  Login-IsFresh s _ (slowed _ _) e = absurd (cc e)
  Login-IsFresh s _ (refused _ _) e = absurd (cc e)
  Login-IsFresh s _ (earned {user} _ _ _ _ _ entries rotates _ _) e = (user.id, entries, rotates)

  module _ (R : Redis Stored) (settings : Settings) (now : ℕ) where
    fresh-Gone :
        (r : SessionRecord) (sid new_sid : String) (changed : Bool) (db : R.Db) (s : Here)
        → (sid == "") ≡ false
        → (key R settings now new_sid == key R settings now sid) ≡ false
        → IsFresh s
        → R.exists
            (key R settings now sid)
            (commit R settings now (some r) (some sid) s.rotates changed new_sid s.entries db).1
          ≡ false
    unfolding IsFresh
    fresh-Gone r sid new_sid changed db s given differ (id, entries, rotates) =
        rw (entries, rotates)
          (commit_rotated-Gone R settings now r sid new_sid changed ("user_id", text id)
            (("csrf_token", text fresh) ∷ []) db given differ)

    -- After a login at the admin pages that succeeds, the middleware's commit at the start of
    -- the response leaves no session under the id that the request came with, when that id is
    -- not empty and the new id has another key. The window of the limits is positive.
    pub login-ends_old_session :
        (r : SessionRecord) (sid new_sid : String) (changed : Bool) (db : R.Db) (s after : Here)
        → (sid == "") ≡ false
        → (key R settings now new_sid == key R settings now sid) ≡ false
        → login K lib dummy_hash users limits form salt fresh s ≡ (logged_in, after)
        → R.exists
            (key R settings now sid)
            (commit R settings now
              (some r)
              (some sid)
              after.rotates
              changed
              new_sid
              after.entries
              db).1
          ≡ false
    login-ends_old_session r sid new_sid changed db s after given differ h =
        fresh-Gone r sid new_sid changed db after given differ (
          Login-IsFresh s (logged_in, after)
            (rw h at (login-Login K lib dummy_hash users limits form salt fresh pos s)) refl)
